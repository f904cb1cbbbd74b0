-- ===== src/Tests/Workers.antt =====
-- The commands of the TX event ring and the held resets at concrete inputs: one connection at 5, stream
-- contexts at 7 and 8, and a stack that counts the calls and says yes.
use aiopquic.Base.{
  ℕ, ◌+◌, bit_and, ◌≡◌, refl, arith, true, false, Bool, Bool-cases, inl, inr, some, none, List, [],
  ◌∷◌, ◌==◌, if◌then◌else◌,
}
use aiopquic.StreamCtx.{StreamCtx}
use aiopquic.Bridge.Resets.{DeferredReset, Ctxs, put_ctx}
use aiopquic.Bridge.Resets.Held.{refs, one, held}
use aiopquic.Bridge.Worker.{Quic, Worker}
use aiopquic.Bridge.Worker.Commands.{
  Command, TxEntry, mark_active, stream_reset, open_flow_control, fc_grant, handle_all,
}
use aiopquic.Bridge.Worker.Owned.{queued}
use aiopquic.Bridge.Worker.Conserved.{IsOwned, handle_all-conserves}
use aiopquic.Bridge.Worker.Run.{run_deferred_resets}
use aiopquic.Bridge.Worker.Run.Swept.{Waits, run_deferred_resets-lem}
use aiopquic.StreamCtx.{ref}
use aiopquic.Bridge.Worker.Asyncio.{ref_sc, tx_sc_release_undrained}
use aiopquic.Bridge.Worker.Asyncio.Life.{Life, Step, takes, begun, then_step, IsExact}
use aiopquic.Bridge.Worker.Asyncio.Reached.{entries, borne, Reach-owned}
use aiopquic.Tests.Streams.{stream, counters, eight, eight-IsValid}
use aiopquic.Bridge.Worker.Credit.{IsCredit, fc_grant-IsCredit}

abbrev pub counting : Quic
counting = record {
  Q = ℕ;
  cnxs = λ q. 5 ∷ [];
  get_cnx_state = λ q cnx. 3;
  state_disconnecting = 10;
  is_client = λ q cnx. true;
  is_client_stream_id = λ id. bit_and id 1 == 0;
  is_bidir_stream_id = λ id. bit_and id 2 == 0;
  reset_stream_at_enabled = λ q cnx local. some true;
  error_invalid_stream_id = 101;
  error_offset_too_big = 102;
  error_illegal_transport_extension = 103;
  reset_stream = λ q cnx id code. (0, q + 1);
  reset_stream_at = λ q cnx id code reliable. (0, q + 1);
  stop_sending = λ q cnx id code. (0, q + 1);
  set_app_stream_ctx = λ q cnx id sc. q + 1;
  mark_active_stream = λ q cnx id sc. q + 1;
  mark_active_stream_v2 = λ q cnx id. q + 1;
  open_flow_control = λ q cnx id credit. q + 1;
  set_app_flow_control = λ q cnx id on. q + 1;
  set_stream_priority = λ q cnx id priority. (0, q + 1);
  picowt_reset_stream = λ q cnx id code. (0, q + 1);
  find_stream = λ q cnx id. false;
  link_sc = λ q session cnx id. 0;
  control_stream_id = λ q cnx id. 0;
  set_fin_sent = λ q cnx id. q;
  reattach_h3_stream = λ q cnx id. q + 1;
}

-- A context with four references, three bytes to send, and no reset.
abbrev pub shared : StreamCtx
shared = record stream { refcount = 4; tx_reset_pending = false }

abbrev pub two_ctxs : Ctxs
two_ctxs = record { at = λ q. if q == 7 then some shared else none; counters = counters }

abbrev pub idle : Worker counting
idle = record {
  libs = 0;
  scs = two_ctxs;
  resets = [];
  resets_swept = 0;
  cnt_reattach_after_close = 0;
  cnt_wrong_direction_dropped = 0;
  cnt_dropped_dead_cnx = 0;
  cnt_priority_applied = 0;
  cnt_priority_rejected = 0;
  priority_last_err = 0;
}

abbrev pub entry : Command → ℕ → TxEntry
entry command cnx = record {
  event_type = command;
  cnx = cnx;
  stream_id = 4;
  stream_ctx = 7;
  error_code = 1;
  aux = 8;
  is_fin = 0;
}

-- A reset that waits for two bytes, a credit, and a command of a connection that is gone.
abbrev commands : List (Bool × TxEntry)
commands =
    (true, entry stream_reset 5)
    ∷ (true, entry open_flow_control 5)
    ∷ (true, entry mark_active 6)
    ∷ []

commands-IsOwned : IsOwned counting idle commands
commands-IsOwned = record {
  has = λ q. elim (Bool-cases (q == 7)) [
    | inl here ↦ rw here (omega arith)
    | inr apart ↦ rw apart (omega arith)
  ];
  small = λ q. elim (Bool-cases (q == 7)) [
    | inl here ↦ rw here (omega arith)
    | inr apart ↦ rw apart (omega arith)
  ];
  rings = λ q some_held. absurd (omega (arith, some_held));
}

handle_all-conserves_example :
    (w' : Worker counting) × (handle_all counting false idle commands ≡ some w')
    × ((q : ℕ)
        → refs (w'.scs.at q) + queued commands q + held idle.resets q
          ≡ refs (idle.scs.at q) + held w'.resets q)
    × IsOwned counting w' []
handle_all-conserves_example = handle_all-conserves counting false idle commands commands-IsOwned

-- A reset on the context, which is sent up to byte 6.
abbrev reset_on : DeferredReset
reset_on = record { cnx = 5; sc = 7; stream_id = 4; error_code = 1; preamble = 0; is_wt = false }

abbrev resetting : Worker counting
resetting = record idle {
  scs = record {
    at = λ q.
        if q == 7
        then some (record shared { tx_reset_pending = true; tx_reliable_size = 6 })
        else none;
    counters = counters;
  };
  resets = reset_on ∷ [];
}

resetting-IsOwned : IsOwned counting resetting []
resetting-IsOwned = record {
  has = λ q. elim (Bool-cases (q == 7)) [
    | inl here ↦ rw here (omega arith)
    | inr apart ↦ rw apart (omega arith)
  ];
  small = λ q. elim (Bool-cases (q == 7)) [
    | inl here ↦ rw here (omega arith)
    | inr apart ↦ rw apart (omega arith)
  ];
  rings = λ q some_held. elim (Bool-cases (q == 7)) [
    | inl here ↦ rw here refl
    | inr apart ↦
        let none_held : held (reset_on ∷ []) q ≡ 0 = rw apart refl in
        absurd (omega (arith, some_held, none_held))
  ];
}

run_deferred_resets-lem_example :
    (w' : Worker counting) × (run_deferred_resets counting 1000 resetting ≡ some w')
    × ((q : ℕ)
        → refs (w'.scs.at q) + held resetting.resets q
          ≡ refs (resetting.scs.at q) + held w'.resets q)
    × Waits w'.resets resetting.scs
    × IsOwned counting w' []
run_deferred_resets-lem_example =
    run_deferred_resets-lem counting 1000 resetting [] resetting-IsOwned

-- The same commands in the queue, and one reference of Python.
abbrev started : Life counting
started = record { worker = idle; queue = commands; others = λ q. if q == 7 then 1 else 0 }

started-IsExact : IsExact counting started
started-IsExact = record {
  exact = λ q. elim (Bool-cases (q == 7)) [
    | inl here ↦ rw here (omega arith)
    | inr apart ↦ rw apart (omega arith)
  ];
  small = commands-IsOwned.small;
  rings = commands-IsOwned.rings;
}

-- Python has one reference more, and then drops one.
abbrev one_more : Worker counting
one_more = record idle {
  scs = put_ctx two_ctxs 7 (some (record shared { refcount = 5 }), counters);
}

abbrev taken_once : Life counting
taken_once = record started { worker = one_more; others = λ q. started.others q + one 7 q }

taken_step : Step counting started taken_once
unfolding ref_sc ref
taken_step = takes started 7 one_more (omega arith) (omega arith) refl

Reach-owned_example :
    ((q : ℕ)
      → refs (taken_once.worker.scs.at q)
        ≡ held taken_once.worker.resets q + queued commands q + taken_once.others q)
    × ((w' : Worker counting) × (handle_all counting false taken_once.worker commands ≡ some w'))
    × ((w' : Worker counting) × (run_deferred_resets counting 1000 taken_once.worker ≡ some w'))
    × ((w' : Worker counting) × (fs : List TxEntry) × (tx_sc_release_undrained counting
            taken_once.worker
            (entries commands)
          ≡ some (w', fs))
        × ((q : ℕ)
            → (refs (w'.scs.at q) ≡ held taken_once.worker.resets q + taken_once.others q)
              × (borne fs q ≡ 0)))
Reach-owned_example =
    Reach-owned counting started taken_once false 1000 started-IsExact
      (then_step started taken_once begun taken_step)

-- Three bytes in the ring, and two that Python has not released.
abbrev reading : StreamCtx
reading = record shared { rx = some eight; bytes_pending_release = 2 }

fc_grant-IsCredit_example : IsCredit (λ b. fc_grant b reading) eight 2 false
fc_grant-IsCredit_example = fc_grant-IsCredit false reading eight refl eight-IsValid
