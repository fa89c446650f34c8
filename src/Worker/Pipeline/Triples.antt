-- ===== src/Worker/Pipeline/Triples.antt =====
-- How the steps of a pipeline are reasoned about: what holds of the context where a step ends with
-- a value, and the steps that leave the record of the review loop alone.
use ai_jsunpack.Prelude.{String, Option, none, some, ◌≡◌, refl, ◌∙◌, inl, inr, Bool-cases}
use ai_jsunpack.Store.Types.{JobStatus, status_eq, cancelled}
use ai_jsunpack.Store.Jobs.{Job}
use ai_jsunpack.Worker.Pipeline.Types.{PipelineContext, Act, Answer, returns, raises}
use ai_jsunpack.Worker.Pipeline.Host.{
  Host, Run, Step, Outcome, value, fault, out_of_fuel, call, modify, return, with_context, answered,
  continue, ◌>>=◌, ◌>>◌,
}
use ai_jsunpack.Worker.Pipeline.Stages.{transition, check_cancelled, raise_if_cancelled}

-- A step that has ended, not for want of fuel; after a value, `P` holds of it and of the context.
unfoldable pub Post : {W A : Type 0} → (A → PipelineContext → Type 0) → Outcome A × Run W → Type 0
Post P (value a, r) = P a r.context
Post P (fault e, r) = Unit
Post P (out_of_fuel, r) = ⊥

pub Post-continue :
    {W A B : Type 0} (P : A → PipelineContext → Type 0) (Q : B → PipelineContext → Type 0)
    (f : A → Step W B) (x : Outcome A × Run W)
    → Post P x
    → ((a : A) (r : Run W) → P a r.context → Post Q (f a r))
    → Post Q (continue f x)
unfolding Post
Post-continue P Q f (value a, r) h k = k a r h
Post-continue P Q f (fault e, r) h k = tt
Post-continue P Q f (out_of_fuel, r) h k = absurd h

pub Post-imp :
    {W A : Type 0} (P Q : A → PipelineContext → Type 0) (x : Outcome A × Run W)
    → Post P x
    → ((a : A) (c : PipelineContext) → P a c → Q a c)
    → Post Q x
unfolding Post
Post-imp P Q (value a, r) h k = k a r.context h
Post-imp P Q (fault e, r) h k = tt
Post-imp P Q (out_of_fuel, r) h k = absurd h

-- The part of the context that the review loop keeps for itself.
pub record SameReview (old new : PipelineContext) : Type 0 where
  pub same_attempts : new.runtime_compare_attempts ≡ old.runtime_compare_attempts
  pub same_max : new.runtime_compare_max_attempts ≡ old.runtime_compare_max_attempts
  pub same_stop : new.runtime_compare_stop_reason ≡ old.runtime_compare_stop_reason

pub SameReview-refl : (c : PipelineContext) → SameReview c c
SameReview-refl c = record { same_attempts = refl; same_max = refl; same_stop = refl }

pub SameReview-trans : (a b c : PipelineContext) → SameReview a b → SameReview b c → SameReview a c
SameReview-trans a b c h k = record {
  same_attempts = k.same_attempts ∙ h.same_attempts;
  same_max = k.same_max ∙ h.same_max;
  same_stop = k.same_stop ∙ h.same_stop;
}

abbrev pub Keeps : {W A : Type 0} → Step W A → Type 0
Keeps m = (r : Run _) → Post (λ _ c. SameReview r.context c) (m r)

pub >>=-Keeps :
    {W A B : Type 0} (m : Step W A) (f : A → Step W B)
    → Keeps m
    → ((a : A) → Keeps (f a))
    → Keeps (m >>= f)
unfolding ◌>>=◌
>>=-Keeps m f hm hf r =
    Post-continue (λ _ c. SameReview r.context c) _ f (m r) (hm r)
      λ a s same.
        Post-imp (λ _ c. SameReview s.context c) _ (f a s) (hf a s)
          λ b c same'. SameReview-trans r.context s.context c same same'

-- A step that keeps the record, before steps that are looked at from where they begin.
module _ {W B : Type 0} (Q : PipelineContext → B → PipelineContext → Type 0)
    (stable : (old new c : PipelineContext) (b : B)
      → SameReview old new
      → Q new b c
      → Q old b c) where
  pub Keeps-then :
      {A : Type 0} (m : Step W A) (f : A → Step W B)
      → Keeps m
      → ((a : A) (s : Run W) → Post (Q s.context) (f a s))
      → (r : Run W) → Post (Q r.context) ((m >>= f) r)
  unfolding ◌>>=◌
  Keeps-then m f keeps k r =
      Post-continue (λ _ c. SameReview r.context c) (Q r.context) f (m r) (keeps r)
        λ a s same.
          Post-imp (Q s.context) (Q r.context) (f a s) (k a s)
            λ b c q. stable r.context s.context c b same q

  pub Keeps-next :
      (m : Step W (Unit {0})) (k : Step W B)
      → Keeps m
      → ((s : Run W) → Post (Q s.context) (k s))
      → (r : Run W) → Post (Q r.context) ((m >> k) r)
  unfolding ◌>>◌
  Keeps-next m k keeps h r = Keeps-then m (λ _. k) keeps (λ _ s. h s) r

pub >>-Keeps :
    {W B : Type 0} (m : Step W (Unit {0})) (k : Step W B) → Keeps m → Keeps k → Keeps (m >> k)
unfolding ◌>>◌
>>-Keeps m k hm hk = >>=-Keeps m (λ _. k) hm λ _. hk

pub with_context-Keeps :
    {W A : Type 0} (f : PipelineContext → Step W A)
    → ((c : PipelineContext) → Keeps (f c))
    → Keeps (with_context f)
with_context-Keeps f h r = h r.context r

pub return-Keeps : {W A : Type 0} (a : A) → Keeps {W = W} (return a)
unfolding Post
return-Keeps a r = SameReview-refl r.context

answered-same :
    {W A : Type 0} (c : PipelineContext) (x : Answer A × W) → Post (λ _ c'. c' ≡ c) (answered c x)
unfolding Post
answered-same c (returns a, w) = refl
answered-same c (raises e, w) = tt

pub call-same :
    {W A : Type 0} (act : Act W A) (r : Run W) → Post (λ _ c. c ≡ r.context) (call act r)
unfolding call
call-same act r = answered-same r.context (act r.world)

pub call-Keeps : {W A : Type 0} (act : Act W A) → Keeps (call act)
call-Keeps act r =
    Post-imp (λ _ c. c ≡ r.context) _ (call act r) (call-same act r)
      λ _ c e. rw e (SameReview-refl r.context)

pub transition-Keeps :
    {W : Type 0} (status : JobStatus) (message : String) → Keeps {W = W} (transition status message)
unfolding transition modify Post
transition-Keeps status message r = record {
  same_attempts = refl;
  same_max = refl;
  same_stop = refl;
}

check_cancelled-Keeps : {W : Type 0} (job : Option Job) → Keeps {W = W} (check_cancelled job)
unfolding check_cancelled Post
check_cancelled-Keeps none r = SameReview-refl r.context
check_cancelled-Keeps (some job) r = elim (Bool-cases (status_eq job.status cancelled)) [
  | inl e ↦ rw e tt
  | inr e ↦ rw e (SameReview-refl r.context)
]

pub raise_if_cancelled-Keeps : {W : Type 0} (host : Host W) → Keeps (raise_if_cancelled host)
unfolding raise_if_cancelled
raise_if_cancelled-Keeps host =
    >>=-Keeps (call host.get_job) check_cancelled (call-Keeps host.get_job) check_cancelled-Keeps
