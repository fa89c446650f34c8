-- ===== src/Crew/Run/Records.antt =====
-- The dict of executions by name, when those of one more stage are put into it.
use ai_jsunpack.Prelude.{
  ◌≡◌, refl, sym, ◌∙◌, ap, String, false, some, List, [], ◌∷◌, ◌++◌, map, if◌then◌else◌, str_eq,
  contains, All, Bool-cases, inl, inr, arith, eq_iff,
}
use ai_jsunpack.Crew.Executions.{CrewAgentExecution}
use ai_jsunpack.Crew.Run.{execution_of, put_execution, put_all, blocker, blocked}

abbrev pub AreAbsent : List String → List String → Type 0
AreAbsent names = All λ d. contains d names ≡ false

execution_of-put :
    (name : String) (e : CrewAgentExecution) (known : List CrewAgentExecution)
    → str_eq name e.spec.name ≡ false
    → execution_of name (put_execution e known) ≡ execution_of name known
unfolding execution_of put_execution
execution_of-put name e [] h = rw h refl
execution_of-put name e (x ∷ rest) h = elim (Bool-cases (str_eq e.spec.name x.spec.name)) [
  | inl same ↦
      rw same
        (rw h (rw (ap (str_eq name) (sym ((eq_iff e.spec.name x.spec.name).0 same)) ∙ h) refl))
  | inr other ↦
      rw other
        (ap (λ o. if str_eq name x.spec.name then some x else o) (execution_of-put name e rest h))
]

abbrev pub executed_name : CrewAgentExecution → String
executed_name e = e.spec.name

execution_of-put_all :
    (name : String) (new known : List CrewAgentExecution)
    → contains name (map executed_name new) ≡ false
    → execution_of name (put_all new known) ≡ execution_of name known
unfolding put_all
execution_of-put_all name [] known h = refl
execution_of-put_all name (e ∷ rest) known h =
    execution_of-put_all name rest (put_execution e known) (ground (arith, h))
    ∙ execution_of-put name e known (ground (arith, h))

All-put :
    (P : CrewAgentExecution → Type 0) (e : CrewAgentExecution) (known : List CrewAgentExecution)
    → P e
    → All P known
    → All P (put_execution e known)
unfolding put_execution
All-put P e [] h hs = (h, tt)
All-put P e (x ∷ rest) h hs = elim (Bool-cases (str_eq e.spec.name x.spec.name)) [
  | inl same ↦ rw same (h, hs.1)
  | inr other ↦ rw other (hs.0, All-put P e rest h hs.1)
]

pub All-put_all :
    (P : CrewAgentExecution → Type 0) (new known : List CrewAgentExecution)
    → All P new
    → All P known
    → All P (put_all new known)
unfolding put_all
All-put_all P [] known hn hk = hk
All-put_all P (e ∷ rest) known hn hk =
    All-put_all P rest (put_execution e known) hn.1 (All-put P e known hn.0 hk)

pub blocked-put_all :
    (name : String) (ds : List String) (new known : List CrewAgentExecution)
    → AreAbsent (map executed_name new) ds
    → blocked name ds (put_all new known) ≡ blocked name ds known
unfolding blocked
blocked-put_all name [] new known h = refl
blocked-put_all name (d ∷ rest) new known h = rw (execution_of-put_all d new known h.0) (
    ap (λ more. blocker name d (execution_of d known) ++ more)
      (blocked-put_all name rest new known h.1))
