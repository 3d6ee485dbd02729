-- ===== src/Message/Response.antt =====
-- message.go: the responded flag. Whatever a handler calls, in whatever order, one response goes out.
use go_nsq.Base.{
  ℕ, ◌+◌, ◌≡◌, refl, ap, Bool, true, false, ◌||◌, List, [], ◌∷◌, ◌++◌, arith, if◌then◌else◌,
}
use go_nsq.Base.Int.{ℤ}
use go_nsq.Message.{
  Message, DelegateCall, on_finish, on_requeue, on_touch, respond, finish, touch, requeue,
  requeue_without_backoff, disable_auto_response,
}

-- The methods of a Message that a handler may call.
pub data Call : Type 0 where
  finishes touches disables : Call
  requeues : ℤ → Call
  requeues_without_backoff : ℤ → Call

unfoldable pub call : Message → Call → Message × List DelegateCall
unfolding finish requeue requeue_without_backoff
call m finishes = finish m
call m touches = touch m
call m disables = (disable_auto_response m, [])
call m (requeues delay) = requeue delay m
call m (requeues_without_backoff delay) = requeue_without_backoff delay m

unfoldable pub calls : Message → List Call → Message × List DelegateCall
calls m [] = (m, [])
calls m (c ∷ cs) = let (m', out) = call m c in let (m'', outs) = calls m' cs in (m'', out ++ outs)

-- A touch is no response; FIN and REQ are.
abbrev pub is_response : DelegateCall → ℕ
is_response on_touch = 0
is_response on_finish = 1
is_response (on_requeue _ _) = 1

abbrev pub responses : List DelegateCall → ℕ
responses [] = 0
responses (c ∷ cs) = is_response c + responses cs

-- Nothing follows a response, a touch neither.
abbrev pub IsLast : List DelegateCall → Type 0
IsLast [] = Unit
IsLast (on_touch ∷ cs) = IsLast cs
IsLast (on_finish ∷ cs) = cs ≡ []
IsLast (on_requeue _ _ ∷ cs) = cs ≡ []

pub call_responded :
    (m : Message) (c : Call) → m.responded ≡ 1 → ((call m c).0.responded ≡ 1) × ((call m c).1 ≡ [])
unfolding call touch disable_auto_response
call_responded m finishes h = ground arith
call_responded m c h = ground arith

pub calls_responded : (m : Message) (cs : List Call) → m.responded ≡ 1 → (calls m cs).1 ≡ []
unfolding calls
calls_responded m [] h = refl
calls_responded m (c ∷ cs) h =
    let (still, silent) = call_responded m c h in
    rw (silent, calls_responded (call m c).0 cs still) refl

unfoldable pub answers : Call → Bool
answers finishes = true
answers touches = false
answers disables = false
answers (requeues _) = true
answers (requeues_without_backoff _) = true

unfoldable pub any_answers : List Call → Bool
any_answers [] = false
any_answers (c ∷ cs) = answers c || any_answers cs

pub touch_open : (m : Message) → m.responded ≡ 0 → touch m ≡ (m, on_touch ∷ [])
unfolding touch
touch_open m h = ground arith

after_answer :
    (m : Message) (cs : List Call) (call : DelegateCall)
    → m.responded ≡ 0
    → ((respond call m).1 ++ (calls (respond call m).0 cs).1) ≡ call ∷ []
unfolding respond
after_answer m cs call h =
    rw (h, respond) (ap (◌∷◌ call) (calls_responded (record m { responded = 1 }) cs refl))

-- On a message without a response, whatever a handler calls in whatever order, exactly one FIN or
-- REQ goes out if it answers at all, none if it does not, and nothing follows the answer.
pub calls_answer_once :
    (m : Message) (cs : List Call)
    → m.responded ≡ 0
    → (responses (calls m cs).1 ≡ (if any_answers cs then 1 else 0)) × IsLast (calls m cs).1
unfolding calls call any_answers answers disable_auto_response
calls_answer_once m [] h = (refl, tt)
calls_answer_once m (finishes ∷ cs) h = rw (after_answer m cs on_finish h) (refl, refl)
calls_answer_once m (touches ∷ cs) h =
    let (count, last) = calls_answer_once m cs h in rw (touch_open m h) (omega (arith, count), last)
calls_answer_once m (disables ∷ cs) h = calls_answer_once (disable_auto_response m) cs h
calls_answer_once m (requeues delay ∷ cs) h =
    rw (after_answer m cs (on_requeue delay true) h) (refl, refl)
calls_answer_once m (requeues_without_backoff delay ∷ cs) h =
    rw (after_answer m cs (on_requeue delay false) h) (refl, refl)
