-- ===== src/Policy/Story/Stages.antt =====
-- internal/milter: how the stages at the end of a message are chained.
use milter_guard.Prelude.{
  Bool, true, false, not, Option, none, some, ◌∷◌, ◌≡◌, refl, arith, if-cases,
}
use milter_guard.Prelude.Bytes.{Bytes}
use milter_guard.Wire.Frame.{Writer, write_frame}
use milter_guard.Session.State.{Session}
use milter_guard.Policy.State.{
  Action, action_accept, action_reject, action_tempfail, Response, responded, Ending, Policy,
  enforces, frame_of, emit, on_success, unless_handled, select_action_for_mode, response_for_action,
}
use milter_guard.Policy.Story.{Status, answered, cut_off, allowed_answer, Story, answers}
use milter_guard.Policy.Story.Answers.{Ready, Sent}

module _ (c : Policy) (s : Session) where
  abbrev pub ConcludesAs : Bool → Ending → Type 0
  ConcludesAs true m = Story c s answered m.events
  ConcludesAs false m = (t : Status) × Story c s t m.events

  -- A connection is kept after an answer only.
  abbrev pub Concludes : Ending × Bool → Type 0
  Concludes (m, kept) = ConcludesAs kept m

  abbrev pub Goes : Ending × Option Bool → Type 0
  Goes (m, none) = Ready c s m
  Goes (m, some kept) = ConcludesAs kept m

  pub unless_handled-Concludes :
      (o : Ending × Option Bool) (next : Ending → Ending × Bool)
      → Goes o
      → ((m : Ending) → Ready c s m → Concludes (next m))
      → Concludes (unless_handled o next)
  unless_handled-Concludes (m, none) next ready f = f m ready
  unless_handled-Concludes (m, some kept) next ends f = ends

  pub on_success-Concludes :
      (o : Ending × Bool) (next : Ending → Ending × Bool)
      → Sent c s o
      → ((m : Ending) → Ready c s m → Concludes (next m))
      → Concludes (on_success o next)
  on_success-Concludes (m, true) next ready f = f m ready
  on_success-Concludes (m, false) next story f = (cut_off, story)

  ended_as :
      (r : Response) (m : Ending) (w : Writer) (sent : Bool)
      → allowed_answer c s r ≡ true
      → Ready c s m
      → ConcludesAs sent (record m { conn = w; events = responded r sent ∷ m.events })
  ended_as r m w true a (story, p) = answers r true a story
  ended_as r m w false a (story, p) = (cut_off, answers r false a story)

  pub emit-Concludes :
      (r : Response) (m : Ending) → allowed_answer c s r ≡ true → Ready c s m → Concludes (emit r m)
  unfolding emit
  emit-Concludes r m a ready =
      ended_as r m (write_frame m.conn (frame_of r)).0 (write_frame m.conn (frame_of r)).1 a ready

  pub enforced-allowed :
      (selected : Action) (message : Bytes)
      → enforces c ≡ true
      → allowed_answer c s (response_for_action selected message) ≡ true
  unfolding allowed_answer response_for_action
  enforced-allowed action_accept message f = refl
  enforced-allowed action_reject message f = ground (arith, f)
  enforced-allowed action_tempfail message f = ground (arith, f)

  -- What holds of an acceptance, and in enforce mode of the action, holds of what is selected.
  pub select_action_for_mode-cases :
      (P : Action → Type 0) (proposed : Action)
      → P action_accept
      → (enforces c ≡ true → P proposed)
      → P (select_action_for_mode proposed c)
  unfolding select_action_for_mode
  select_action_for_mode-cases P proposed a f =
      if-cases P (not (enforces c)) (λ e. a) (λ e. f (ground (arith, e)))
