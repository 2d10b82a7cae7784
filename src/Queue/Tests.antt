-- ===== src/Queue/Tests.antt =====
-- shared/pkg/queue/memory.go on concrete messages.
use distributed_ml_inference.Prelude.{
  pos, ◌<◌, add64, String, true, false, none, some, [], ◌∷◌, ◌++◌, length, ◌==◌, ◌≡◌, ◌≢◌, refl,
  sym, ◌∙◌, if◌then◌else◌, arith, lookup, wrap64, ◌+ℤ◌,
}
use distributed_ml_inference.Queue.{done, failed}
use distributed_ml_inference.Queue.Itoa.{itoa, put_sign, itoa_loop}
use distributed_ml_inference.Queue.Memory.{
  Memory, channel, channel_size, enqueue, enqueue_as, chan_for, send, set_channel,
}
use distributed_ml_inference.Queue.Memory.Channels.{channel-enqueue, message_of, enqueue_done}

abbrev idle : Memory String
idle = record { topics = []; dlq = []; seq = pos 0; closed = false }

accepted : (enqueue none false "jobs" "payload" idle).0 ≡ done
unfolding channel itoa wrap64 ◌+ℤ◌ put_sign itoa_loop lookup
accepted = enqueue_done false "jobs" "payload" idle "1" refl (omega arith)

channel-enqueue_example :
    (id : String) × (itoa (add64 idle.seq (pos 1)) ≡ some id)
    × (length (channel "jobs" idle) < channel_size)
    × ((j : String)
        → channel j (enqueue none false "jobs" "payload" idle).1 ≡ (
            if "jobs" == j
            then channel "jobs" idle ++ message_of id "payload" ∷ []
            else channel j idle))
channel-enqueue_example = channel-enqueue none false "jobs" "payload" idle accepted

refused :
    (enqueue (some "context canceled") true "jobs" "payload" idle).0 ≡ failed "context canceled"
unfolding enqueue enqueue_as chan_for send set_channel itoa wrap64 ◌+ℤ◌ put_sign itoa_loop lookup
refused = refl

refused_not_done : (enqueue (some "context canceled") true "jobs" "payload" idle).0 ≢ done
refused_not_done h = let clash = sym refused ∙ h in absurd (cc)
