-- ===== src/Tests/Bridges.antt =====
-- The bridge between the threads at concrete inputs: an event counter as the wake descriptor, a list of
-- two protocol names, one close reason.
use aiopquic.Base.{
  ℕ, ◌+◌, ◌≡◌, refl, arith, true, false, none, some, List, [], ◌∷◌, ◌++◌, take, ltb, if◌then◌else◌,
  inl, inr, Bool-cases,
}
use aiopquic.Bridge.Alpn.{set_alpn_list, or_empty, alpn_select_cb}
use aiopquic.Bridge.Alpn.Parse.{join, set_alpn_list-join}
use aiopquic.Bridge.Alpn.Select.{Choice, alpn_select_cb_lem}
use aiopquic.Bridge.Reasons.{hold, reason_of, text_at}
use aiopquic.Bridge.Reasons.Apart.{Op, lending, closing, run}
use aiopquic.Bridge.Reasons.Lent.{lent_text}
use aiopquic.Bridge.Wake.{WakeFd, Rx, Trace, notify_flip, notify_write}
use aiopquic.Bridge.Wake.Steps as WakeSteps
use aiopquic.Bridge.Wake.Reached.{Reach-readable}
use aiopquic.Bridge.Sleep.{Tx, wake_exchange, arm_peek}
use aiopquic.Bridge.Sleep.Steps as SleepSteps
use aiopquic.Bridge.Sleep.Reached.{Reach-woken}

-- "ab" and "c".
abbrev two_names : List (List ℕ)
two_names = (97 ∷ 98 ∷ []) ∷ (99 ∷ []) ∷ []

set_alpn_list-join_example : set_alpn_list true (λ n. true) (some (join two_names)) ≡ two_names
set_alpn_list-join_example =
    set_alpn_list-join (λ n. true) two_names (λ n. refl)
      ((omega arith, omega arith, refl), ((omega arith, omega arith, refl), tt))

alpn_select_cb_lem_example :
    Choice
      (or_empty (some two_names))
      ((99 ∷ []) ∷ (97 ∷ 98 ∷ []) ∷ [])
      (alpn_select_cb (some two_names) ((99 ∷ []) ∷ (97 ∷ 98 ∷ []) ∷ []))
alpn_select_cb_lem_example = alpn_select_cb_lem (some two_names) ((99 ∷ []) ∷ (97 ∷ 98 ∷ []) ∷ [])

abbrev others_after : List Op
others_after = lending (some 64) 6 (some (98 ∷ [])) 1 ∷ closing 6 ∷ []

lent_text_example :
    (text : List ℕ) × (reason_of (run [] []) 5 ≡ none → text ≡ take 1 (97 ∷ []) ++ 0 ∷ [])
    × (text_at (run (hold (some 32) (run [] []) 5 (some (97 ∷ [])) 1).1 others_after) 32
        ≡ some text)
    × (reason_of (run (hold (some 32) (run [] []) 5 (some (97 ∷ [])) 1).1 others_after) 5 ≡ some 32)
unfolding hold reason_of text_at
lent_text_example =
    lent_text [] (some 32) 5 32 (97 ∷ []) 1 others_after tt (omega arith) refl refl (refl, (tt, tt))
      (tt, ((λ e. absurd (omega (arith, e))), tt))

-- An event counter that holds at most 254.
abbrev counter_write : ℕ → ℕ × ℕ
counter_write c = if ltb c 254 then (c + 1, 0) else (c, 11)

counter_written : (c : ℕ) → ltb 0 (counter_write c).0 ≡ true
counter_written c = elim (Bool-cases (ltb c 254)) [
  | inl room ↦ rw room (ground arith)
  | inr full ↦ rw full (ground (arith, full))
]

abbrev counter : WakeFd
counter = record {
  Fd = ℕ;
  write = counter_write;
  read = λ c. (0, c);
  readable = λ c. ltb 0 c;
  write-readable = counter_written;
}

abbrev no_trace : Trace
no_trace = record { next = 0; e = [] }

abbrev quiet : Rx counter
quiet = record {
  left = 0;
  depth = 0;
  fd = 0;
  rx_notify_pending = false;
  cnt_rx_notify_flips = 0;
  cnt_rx_notify_skips = 0;
  cnt_rx_notify_write_errs = 0;
  last_rx_notify_errno = 0;
  cnt_rx_clears = 0;
  cnt_rx_clear_read_empty = 0;
  cnt_rx_rearms = 0;
  worker_trace = no_trace;
  asyncio_trace = no_trace;
}

abbrev one_left : Rx counter
one_left = record quiet { left = 1 }

-- After a push and its notification.
abbrev notified : Rx counter
notified = notify_write counter 7 (notify_flip counter one_left).1

one_notified :
    WakeSteps.Reach counter
      (WakeSteps.at counter quiet WakeSteps.resting WakeSteps.waiting)
      (WakeSteps.at counter notified WakeSteps.resting WakeSteps.waiting)
unfolding notify_flip
one_notified =
    WakeSteps.Reach.then_step
      (WakeSteps.Reach.then_step
        (WakeSteps.Reach.then_step WakeSteps.Reach.none_yet
          (WakeSteps.Step.push_ring quiet WakeSteps.waiting))
        (WakeSteps.Step.flip one_left WakeSteps.waiting))
      (WakeSteps.Step.notify 7 (notify_flip counter one_left).1 WakeSteps.waiting)

Reach-readable_example : counter.readable notified.fd ≡ true
unfolding notify_write notify_flip
Reach-readable_example =
    Reach-readable counter quiet notified refl refl refl one_notified (omega arith)

abbrev no_entries : Tx
no_entries = record {
  queued = 0;
  tx_worker_idle = false;
  cnt_wake_calls = 0;
  cnt_wake_skipped_coalesced = 0;
  tx_worker_armed_at = 0;
  cnt_tx_wake_lost = 0;
  cnt_loop_cb = 0;
}

abbrev armed_tx : Tx
armed_tx = record no_entries { tx_worker_idle = true; tx_worker_armed_at = 5 }

abbrev pushed_tx : Tx
pushed_tx = record armed_tx { queued = 1 }

abbrev woken_tx : Tx
woken_tx = record pushed_tx { tx_worker_idle = false; cnt_wake_calls = 1 }

-- The worker waits, and a push wakes it.
one_woken :
    SleepSteps.Reach
      (SleepSteps.at no_entries false SleepSteps.resting SleepSteps.running)
      (SleepSteps.at woken_tx true SleepSteps.resting SleepSteps.asleep)
unfolding arm_peek wake_exchange
one_woken =
    SleepSteps.Reach.then_step
      (SleepSteps.Reach.then_step
        (SleepSteps.Reach.then_step
          (SleepSteps.Reach.then_step
            (SleepSteps.Reach.then_step
              (SleepSteps.Reach.then_step SleepSteps.Reach.none_yet
                (SleepSteps.Step.arm 60000 5 no_entries false SleepSteps.resting (omega arith)))
              (SleepSteps.Step.peek armed_tx false SleepSteps.resting))
            (SleepSteps.Step.push armed_tx false SleepSteps.asleep))
          (SleepSteps.Step.load pushed_tx false SleepSteps.asleep))
        (SleepSteps.Step.exchange pushed_tx false SleepSteps.asleep))
      (SleepSteps.Step.call woken_tx false SleepSteps.asleep)

Reach-woken_example : (true ≡ true) × (woken_tx.tx_worker_idle ≡ false)
Reach-woken_example = Reach-woken no_entries woken_tx false true one_woken (omega arith)
