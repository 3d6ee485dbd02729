-- ===== src/Handlers/Verdict.antt =====
-- consumer.go: what a handled message is answered with.
use go_nsq.Base.{
  ℕ, ◌≡◌, inl, inr, refl, sym, ap, ◌∙◌, Bool, true, false, ◌&&◌, ◌||◌, List, [], ◌∷◌, ◌++◌, arith,
  ltb, if◌then◌else◌, ◌==◌, Bool-cases,
}
use go_nsq.Base.Int.{negsuc}
use go_nsq.Message.{
  Message, DelegateCall, on_finish, on_requeue, on_touch, respond, finish, requeue, do_requeue,
  requeue_without_backoff, is_auto_response_disabled, disable_auto_response,
}
use go_nsq.Message.Response.{
  Call, finishes, touches, disables, requeues, requeues_without_backoff, call, calls,
  call_responded, touch_open,
}
use mathlib.Core.List.{append_assoc}
use go_nsq.Handlers.{Handling, is_tired, should_fail_message, auto_respond, handle}

abbrev pub without_touches : List DelegateCall → List DelegateCall
without_touches [] = []
without_touches (on_touch ∷ cs) = without_touches cs
without_touches (on_finish ∷ cs) = on_finish ∷ without_touches cs
without_touches (on_requeue d b ∷ cs) = on_requeue d b ∷ without_touches cs

-- The first answer that a handler asks for, or the one that is given otherwise.
unfoldable pub first_answer : List Call → List DelegateCall → List DelegateCall
first_answer [] otherwise = otherwise
first_answer (finishes ∷ cs) otherwise = on_finish ∷ []
first_answer (requeues d ∷ cs) otherwise = on_requeue d true ∷ []
first_answer (requeues_without_backoff d ∷ cs) otherwise = on_requeue d false ∷ []
first_answer (touches ∷ cs) otherwise = first_answer cs otherwise
first_answer (disables ∷ cs) otherwise = first_answer cs otherwise

unfoldable pub any_disables : List Call → Bool
any_disables [] = false
any_disables (disables ∷ cs) = true
any_disables (_ ∷ cs) = any_disables cs

-- Too many attempts: what LogFailedMessage answers, else FIN. Else the handler's own answer. Else,
-- unless automatic answers are off, FIN for no error, and for an error REQ with the default delay
-- and backoff.
unfoldable pub verdict : ℕ → Handling → Message → List DelegateCall
unfolding first_answer any_disables
verdict max_attempts h m =
    if ltb 0 max_attempts && ltb max_attempts m.attempts
    then first_answer h.logged (on_finish ∷ [])
    else first_answer h.made (
        if (m.auto_response_disabled == 1) || any_disables h.made
        then []
        else if h.failed
        then on_requeue (negsuc 0) true ∷ []
        else on_finish ∷ [])

auto_respond_silent :
    (failed : Bool) (m : Message) → m.responded ≡ 1 → (auto_respond failed m).1 ≡ []
unfolding auto_respond finish requeue do_requeue respond
auto_respond_silent failed m h = ground arith

-- The whole of what goes out once the handler was called.
abbrev outcome : List Call → Bool → Message → List DelegateCall
outcome cs failed m = (calls m cs).1 ++ (auto_respond failed (calls m cs).0).1

outcome_silent :
    (cs : List Call) (failed : Bool) (m : Message) → m.responded ≡ 1 → outcome cs failed m ≡ []
unfolding calls
outcome_silent [] failed m h = auto_respond_silent failed m h
outcome_silent (c ∷ cs) failed m h =
    let (still, silent) = call_responded m c h in
    rw silent (outcome_silent cs failed (call m c).0 still)

outcome-answer :
    (answer : DelegateCall) (cs : List Call) (failed : Bool) (m : Message)
    → m.responded ≡ 0
    → (respond answer m).1 ++ outcome cs failed (respond answer m).0 ≡ answer ∷ []
unfolding respond
outcome-answer answer cs failed m h =
    rw h (ap (◌∷◌ answer) (outcome_silent cs failed (record m { responded = 1 }) refl))

-- The answer that is given when the handler asks for none.
abbrev default : Bool → Bool → List DelegateCall
default off failed =
    if off then [] else if failed then on_requeue (negsuc 0) true ∷ [] else on_finish ∷ []

auto_respond_default :
    (failed : Bool) (m : Message)
    → m.responded ≡ 0
    → without_touches (auto_respond failed m).1
      ≡ default ((m.auto_response_disabled == 1) || false) failed
unfolding auto_respond finish requeue do_requeue respond is_auto_response_disabled
auto_respond_default true m h = ground arith
auto_respond_default false m h = ground arith

or_true : (b : Bool) → (b || true) ≡ true
or_true true = refl
or_true false = refl

outcome-first_answer :
    (cs : List Call) (failed : Bool) (m : Message)
    → m.responded ≡ 0
    → without_touches (outcome cs failed m)
      ≡ first_answer cs (default ((m.auto_response_disabled == 1) || any_disables cs) failed)
unfolding calls call first_answer any_disables finish requeue requeue_without_backoff do_requeue
    disable_auto_response
outcome-first_answer [] failed m h = auto_respond_default failed m h
outcome-first_answer (finishes ∷ cs) failed m h = ap without_touches (
    append_assoc (respond (on_finish) m).1 (calls (respond (on_finish) m).0 cs).1
      (auto_respond failed (calls (respond (on_finish) m).0 cs).0).1
    ∙ outcome-answer (on_finish) cs failed m h)
outcome-first_answer (touches ∷ cs) failed m h =
    rw (touch_open m h) (outcome-first_answer cs failed m h)
outcome-first_answer (disables ∷ cs) failed m h =
    outcome-first_answer cs failed (disable_auto_response m) h
    ∙ ap (λ (off : Bool). first_answer cs (default off failed))
        (sym (or_true (m.auto_response_disabled == 1)))
outcome-first_answer (requeues d ∷ cs) failed m h = ap without_touches (
    append_assoc (respond (on_requeue d true) m).1 (calls (respond (on_requeue d true) m).0 cs).1
      (auto_respond failed (calls (respond (on_requeue d true) m).0 cs).0).1
    ∙ outcome-answer (on_requeue d true) cs failed m h)
outcome-first_answer (requeues_without_backoff d ∷ cs) failed m h = ap without_touches (
    append_assoc (respond (on_requeue d false) m).1 (calls (respond (on_requeue d false) m).0 cs).1
      (auto_respond failed (calls (respond (on_requeue d false) m).0 cs).0).1
    ∙ outcome-answer (on_requeue d false) cs failed m h)

-- The whole of what goes out for a message with too many attempts.
abbrev last_outcome : List Call → Message → List DelegateCall
last_outcome cs m = (calls m cs).1 ++ (finish (calls m cs).0).1

last_outcome_silent : (cs : List Call) (m : Message) → m.responded ≡ 1 → last_outcome cs m ≡ []
unfolding calls finish respond
last_outcome_silent [] m h = rw h refl
last_outcome_silent (c ∷ cs) m h =
    let (still, silent) = call_responded m c h in
    rw silent (last_outcome_silent cs (call m c).0 still)

last_outcome-answer :
    (answer : DelegateCall) (cs : List Call) (m : Message)
    → m.responded ≡ 0
    → (respond answer m).1 ++ last_outcome cs (respond answer m).0 ≡ answer ∷ []
unfolding respond
last_outcome-answer answer cs m h =
    rw h (ap (◌∷◌ answer) (last_outcome_silent cs (record m { responded = 1 }) refl))

last_outcome-first_answer :
    (cs : List Call) (m : Message)
    → m.responded ≡ 0
    → without_touches (last_outcome cs m) ≡ first_answer cs (on_finish ∷ [])
unfolding calls call first_answer finish requeue requeue_without_backoff do_requeue
    disable_auto_response
last_outcome-first_answer [] m h = unfold respond in rw h refl
last_outcome-first_answer (finishes ∷ cs) m h = ap without_touches (
    append_assoc (respond (on_finish) m).1 (calls (respond (on_finish) m).0 cs).1
      (finish (calls (respond (on_finish) m).0 cs).0).1
    ∙ last_outcome-answer (on_finish) cs m h)
last_outcome-first_answer (touches ∷ cs) m h =
    rw (touch_open m h) (last_outcome-first_answer cs m h)
last_outcome-first_answer (disables ∷ cs) m h =
    last_outcome-first_answer cs (disable_auto_response m) h
last_outcome-first_answer (requeues d ∷ cs) m h = ap without_touches (
    append_assoc (respond (on_requeue d true) m).1 (calls (respond (on_requeue d true) m).0 cs).1
      (finish (calls (respond (on_requeue d true) m).0 cs).0).1
    ∙ last_outcome-answer (on_requeue d true) cs m h)
last_outcome-first_answer (requeues_without_backoff d ∷ cs) m h = ap without_touches (
    append_assoc (respond (on_requeue d false) m).1 (calls (respond (on_requeue d false) m).0 cs).1
      (finish (calls (respond (on_requeue d false) m).0 cs).0).1
    ∙ last_outcome-answer (on_requeue d false) cs m h)

-- A message without a response leaves the handler loop with exactly the answer of the verdict:
-- for too many attempts the first answer that LogFailedMessage gave, else FIN; for any other
-- message the first answer the handler asked for, else, unless automatic answers are off, FIN, or
-- for an error REQ with the default delay and backoff. Touches apart, nothing else goes out.
pub handle-verdict :
    (max_attempts : ℕ) (h : Handling) (m : Message)
    → m.responded ≡ 0
    → without_touches (handle max_attempts h m).1 ≡ verdict max_attempts h m
unfolding handle verdict should_fail_message is_tired
handle-verdict max_attempts h m open_message =
    elim (Bool-cases (ltb 0 max_attempts && ltb max_attempts m.attempts)) [
      | inl tired ↦ rw tired (last_outcome-first_answer h.logged m open_message)
      | inr fresh ↦ rw fresh (outcome-first_answer h.made h.failed m open_message)
    ]
