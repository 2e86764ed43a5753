-- ===== src/Client.antt =====
-- agent/transport/client.go: the agent's side of the stream. Dialling and TLS are not modelled;
-- time enters as arguments, and what arrives on the stream as a list of frames.
pub mod Batches
pub mod Restart
use kube_cost.Prelude.{
  ℕ, zero, suc, ◌+◌, ◌*◌, ◌≤◌, ◌<◌, ◌^◌, ◌≡◌, refl, min, arith, String, Bool, true, false, not,
  ◌&&◌, Option, none, some, List, [], ◌∷◌, ◌++◌, ltb, ◌==◌, str_eq, if◌then◌else◌,
}
use native.Mathlib.Nat.{pow-suc}
use kube_cost.Wire.{
  Observation, ObservationBatch, RecordRejection, ProtocolVersion, BatchAcknowledgement,
  ServerFrame, hello, acknowledgement, configuration, flow_control, stream_error, AgentHello,
  AgentFrame, agent_hello, batch, heartbeat, Codec,
}
use kube_cost.Buffer.{Buffer, sequence_at, acknowledge, highest_sequence}

-- `batchChecksum`: an observation that cannot be encoded is skipped.
written : Codec → List Observation → List ℕ
written codec [] = []
written codec (o ∷ os) = elim (codec.marshal o) [
  | none ↦ written codec os
  | some bytes ↦ bytes ++ written codec os
]

unfoldable pub batch_checksum : Codec → List Observation → List ℕ
unfolding written
batch_checksum codec os = codec.sha256 (written codec os)

-- `observations[len(observations)-1].Sequence`.
abbrev pub last_sequence_of : List Observation → ℕ
last_sequence_of [] = 0
last_sequence_of (o ∷ []) = o.sequence
last_sequence_of (o ∷ x ∷ os) = last_sequence_of (x ∷ os)

-- The batch that `connect` sends for observations from the buffer.
unfoldable pub make_batch : Codec → String → ℕ → List Observation → ObservationBatch
make_batch codec cluster_id now os = record {
  batch_id = codec.batch_name cluster_id (sequence_at os 0) (last_sequence_of os);
  first_sequence = sequence_at os 0;
  last_sequence = last_sequence_of os;
  created_at = now;
  payload_checksum = batch_checksum codec os;
  observations = os;
}

-- The sequence numbers of the rejections that are final.
unfoldable pub terminal : List RecordRejection → List ℕ
terminal [] = []
terminal (r ∷ rs) = let rest = terminal rs in if r.retryable then rest else r.sequence ∷ rest

-- How a wait for an acknowledgement ends: with it, with a stream error, or not yet.
pub data Awaited : Type 0 where
  acknowledged failed pending : Awaited

-- `awaitAcknowledgement` on the frames in their order; flow control only delays.
unfoldable pub await_acknowledgement : String → List ServerFrame → Buffer → Awaited × Buffer
await_acknowledgement batch_id [] b = (pending, b)
await_acknowledgement batch_id (acknowledgement a ∷ frames) b =
    let rest = await_acknowledgement batch_id frames b in
    if not (str_eq a.batch_id "") && not (str_eq a.batch_id batch_id)
    then rest
    else (acknowledged, acknowledge a.persisted_through_sequence (terminal a.rejections) b)
await_acknowledgement batch_id (stream_error e ∷ frames) b = (failed, b)
await_acknowledgement batch_id (_ ∷ frames) b = await_acknowledgement batch_id frames b

major_of : Option ProtocolVersion → ℕ
major_of none = 0
major_of (some v) = v.major

-- The first frame of the service: none is an incompatible handshake.
unfoldable pub handshake : ServerFrame → Buffer → Option Buffer
unfolding major_of
handshake (hello h) b =
    if major_of h.selected_protocol_version == 1
    then some (acknowledge h.accepted_through_sequence [] b)
    else none
handshake _ b = none

unfoldable pub heartbeat_of : Buffer → AgentFrame
heartbeat_of b = heartbeat (highest_sequence b) b.persisted

-- The wait before the next connection, in nanoseconds: `if backoff < 30*time.Second { backoff *= 2
-- }`.
unfoldable pub next_backoff : ℕ → ℕ
next_backoff backoff = if ltb backoff 30000000000 then backoff * 2 else backoff

unfoldable pub backoff_after : ℕ → ℕ
backoff_after zero = 1000000000
backoff_after (suc n) = next_backoff (backoff_after n)

backoff_after_cap : (n : ℕ) → backoff_after (suc (suc (suc (suc (suc n))))) ≡ 32000000000
unfolding backoff_after next_backoff
backoff_after_cap zero = refl
backoff_after_cap (suc n) = ground (arith, backoff_after_cap n)

pow_cap : (n : ℕ) → 32 ≤ 2 ^ suc (suc (suc (suc (suc n))))
pow_cap zero = omega arith
pow_cap (suc n) = rw (pow-suc 2 (suc (suc (suc (suc (suc n)))))) (omega (arith, pow_cap n))

-- After `n` disconnections the wait before the next connection is 2 ^ n seconds, at most 32.
pub backoff_after_lem : (n : ℕ) → backoff_after n ≡ min (2 ^ n) 32 * 1000000000
unfolding backoff_after next_backoff
backoff_after_lem zero = refl
backoff_after_lem (suc zero) = refl
backoff_after_lem (suc (suc zero)) = refl
backoff_after_lem (suc (suc (suc zero))) = refl
backoff_after_lem (suc (suc (suc (suc zero)))) = refl
backoff_after_lem (suc (suc (suc (suc (suc n))))) = omega (arith, backoff_after_cap n, pow_cap n)
