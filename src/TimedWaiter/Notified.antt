-- ===== src/TimedWaiter/Notified.antt =====
-- What `notified`, the notification and the calls know of each other.
use portable_concurrency.Prelude.{
  ℕ, ◌≡◌, ◌≢◌, refl, ap, subst, ◌∙◌, Bool, true, false, if◌then◌else◌, update-here, update-there,
  ℕ_discrete,
}
use portable_concurrency.TimedWaiter.{
  Waiter, Call, Notification, unsent, marked, finished, outside, asleep, woken, ready, timeout, put,
  send_from, send_step, wait_from, wait_step, expire_from, expire, wake_from, wake, Reach, start,
  sends, waits, expires, wakes,
}

abbrev is_sent : Notification → Bool
is_sent unsent = false
is_sent _ = true

-- What holds of a call.
abbrev Fine : Bool → Notification → Call → Type 0
Fine b n asleep = n ≢ finished
Fine b n ready = b ≡ true
Fine b n _ = Unit

record Inv (s : Waiter) : Type 0 where
  sent : s.notified ≡ is_sent s.notification
  fine : (i : ℕ) → Fine s.notified s.notification (s.calls i)

put-Inv :
    (s : Waiter) (i : ℕ) (c : Call) → Fine s.notified s.notification c → Inv s → Inv (put s i c)
put-Inv s i c f inv = record {
  sent = inv.sent;
  fine = λ j. elim (ℕ_discrete i j) [
    | yes e ↦ rw (update-here s.calls i c j e) f
    | no n ↦ rw (update-there s.calls i c j n) (inv.fine j)
  ];
}

tested_ready :
    (b : Bool) (n : Notification) → b ≡ is_sent n → Fine b n (if b then ready else asleep)
tested_ready true n e = refl
tested_ready false n e = λ f. absurd (cc (e, ap is_sent f))

expired : (b : Bool) (n : Notification) → Fine b n (if b then ready else timeout)
expired true n = refl
expired false n = tt

wait_from-Inv : (s : Waiter) (i : ℕ) (c : Call) → Inv s → Inv (wait_from s i c)
wait_from-Inv s i outside inv = put-Inv s i _ (tested_ready s.notified s.notification inv.sent) inv
wait_from-Inv s i woken inv = put-Inv s i _ (tested_ready s.notified s.notification inv.sent) inv
wait_from-Inv s i asleep inv = inv
wait_from-Inv s i ready inv = inv
wait_from-Inv s i timeout inv = inv

expire_from-Inv : (s : Waiter) (i : ℕ) (c : Call) → Inv s → Inv (expire_from s i c)
expire_from-Inv s i asleep inv = put-Inv s i _ (expired s.notified s.notification) inv
expire_from-Inv s i woken inv = put-Inv s i _ (expired s.notified s.notification) inv
expire_from-Inv s i outside inv = inv
expire_from-Inv s i ready inv = inv
expire_from-Inv s i timeout inv = inv

wake_from-Inv : (s : Waiter) (i : ℕ) (c : Call) → Inv s → Inv (wake_from s i c)
wake_from-Inv s i asleep inv = put-Inv s i woken tt inv
wake_from-Inv s i outside inv = inv
wake_from-Inv s i woken inv = inv
wake_from-Inv s i ready inv = inv
wake_from-Inv s i timeout inv = inv

marked-Fine : (b : Bool) (c : Call) → Fine b unsent c → Fine true marked c
marked-Fine b asleep f = λ e. absurd (cc e)
marked-Fine b ready f = refl
marked-Fine b outside f = tt
marked-Fine b woken f = tt
marked-Fine b timeout f = tt

woken-Fine :
    (b : Bool) (c : Call) → Fine b marked c → Fine b finished (elim c [ asleep ↦ woken | d ↦ d ])
woken-Fine b asleep f = tt
woken-Fine b ready f = f
woken-Fine b outside f = tt
woken-Fine b woken f = tt
woken-Fine b timeout f = tt

send_from-Inv : (s : Waiter) (n : Notification) → s.notification ≡ n → Inv s → Inv (send_from s n)
send_from-Inv s unsent e inv = record {
  sent = refl;
  fine = λ i.
      marked-Fine s.notified (s.calls i)
        (subst (λ n. Fine s.notified n (s.calls i)) e (inv.fine i));
}
send_from-Inv s marked e inv = record {
  sent = inv.sent ∙ ap is_sent e;
  fine = λ i.
      woken-Fine s.notified (s.calls i) (subst (λ n. Fine s.notified n (s.calls i)) e (inv.fine i));
}
send_from-Inv s finished e inv = inv

Reach-Inv : {s : Waiter} → Reach s → Inv s
unfolding send_step wait_step expire wake
Reach-Inv start = record { sent = refl; fine = λ i. tt }
Reach-Inv (sends {s} r) = send_from-Inv s s.notification refl (Reach-Inv r)
Reach-Inv (waits {s} i r) = wait_from-Inv s i (s.calls i) (Reach-Inv r)
Reach-Inv (expires {s} i r) = expire_from-Inv s i (s.calls i) (Reach-Inv r)
Reach-Inv (wakes {s} i r) = wake_from-Inv s i (s.calls i) (Reach-Inv r)

-- In every state that is reached, once the notification has run to its end, no call sleeps.
pub finished_none_asleep :
    {s : Waiter} (i : ℕ) → Reach s → s.notification ≡ finished → s.calls i ≢ asleep
finished_none_asleep {s} i r e a =
    subst (λ c. Fine s.notified s.notification c) a ((Reach-Inv r).fine i) e

-- A call returns `ready` only after the notification has begun.
pub ready_after_notification :
    {s : Waiter} (i : ℕ) → Reach s → s.calls i ≡ ready → s.notification ≢ unsent
ready_after_notification {s} i r a u =
    let inv = Reach-Inv r in
    let notified = subst (λ c. Fine s.notified s.notification c) a (inv.fine i) in
    absurd (cc (notified, inv.sent, ap is_sent u))
