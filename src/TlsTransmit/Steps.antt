-- ===== src/TlsTransmit/Steps.antt =====
-- The functions of 722device/server/tls_transmit.c as sequences of the steps of TlsTransmit.Threads.
use ai_coding_for_business.Common.{put, ℕ, suc, Bool, true, some, ◌≡◌, refl, arith, s_ok, fun_ext}
use ai_coding_for_business.TlsBuff.{Buff}
use ai_coding_for_business.TlsTransmit.{
  push, insert, active, update_transmit_queue, thread_poll, handle, current_or_top,
}
use ai_coding_for_business.TlsTransmit.Threads.{
  idle, Threads, with_transmit, at_current, after_take, inserts, raises, wakes, takes, finishes,
  Reach, here, next,
}

put-put_self : (f : ℕ → ℕ) (p v : ℕ) → put (put f p v) p (f p) ≡ f
put-put_self f p v = fun_ext λ q. ground arith

-- A call of `tls_transmit_push` that succeeds comes about by steps of the threads, from a state where the
-- polling thread is outside its poll.
pub push-Reach :
    (s : Threads) (b : Buff)
    → s.poller ≡ idle
    → (push s.server.transmit (some b)).0 ≡ s_ok
    → Reach s (record s { server = with_transmit s.server (push s.server.transmit (some b)).1 })
unfolding push
push-Reach s b i e =
    let p = b.priority in
    let s1 = record s {
      server = with_transmit s.server (insert s.server.transmit p b);
      inserted = put s.inserted p (suc (s.inserted p));
    } in
    let s2 = record s1 {
      server = with_transmit s1.server (update_transmit_queue s1.server.transmit p);
      inserted = put s1.inserted p (s.inserted p);
      raised = put s1.raised p (suc (s1.raised p));
    } in
    let s3 = record s2 {
      server = with_transmit s2.server (active s2.server.transmit);
      raised = put s2.raised p (s.raised p);
    } in
    next {t = s2}
      (next {t = s1}
        (next here (inserts b (ground arith) (ground arith) (ground arith) (ground arith) refl))
        (raises p (s.inserted p) i (ground arith) refl))
      (wakes p (s.raised p) (ground arith) (
        ground (
          arith,
          put-put_self s.inserted p (suc (s.inserted p)),
          put-put_self s.raised p (suc (s.raised p)),
        )))

-- A round of the polling thread comes about by steps of the threads.
pub poll-Reach :
    (s : Threads) (accepted : Bool)
    → s.poller ≡ idle
    → s.server.transmit.run ≡ true
    → s.server.transmit.evt_loop ≡ true
    → Reach s (record s { server = thread_poll s.server accepted })
unfolding thread_poll
poll-Reach s a i r w = next {t = after_take s a} (next here (takes a i r w refl)) (
    finishes (current_or_top s.server.transmit)
      (handle (at_current s.server) (current_or_top s.server.transmit) a).0 refl (ground arith))
