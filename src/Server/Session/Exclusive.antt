-- ===== src/Server/Session/Exclusive.antt =====
-- services/ingestion/server/server.go, `Connect`: one stream at a time for each cluster.
use kube_cost.Prelude.{
  subst, All, ◌∙◌, ℕ, zero, suc, ◌≤◌, ◌≡◌, refl, arith, String, Bool, true, false, ◌&&◌, Option,
  none, some, List, [], ◌∷◌, length, count, str_eq, eq_iff, if◌then◌else◌, Option-cases, Bool-cases,
  inl, inr,
}
use kube_cost.Prelude.Dict.{get, dict_laws}
use kube_cost.Wire.{AgentHello, AgentFrame, agent_hello, ObservationBatch, Codec}
use kube_cost.Queue.{Queue}
use kube_cost.Server.Config.{Config}
use kube_cost.Server.Batch.{Calls, Frame}
use kube_cost.Server.Session.{
  Server, acquire, release, on_batch, Outside, Opening, opened, connect, cluster_key,
}
use kube_cost.Server.Session.Streams.{
  Stream, key_of, World, start, Event, connects, sends, ends, after_connect, stream_at, without,
  after_batch, after_end, step, run,
}

-- The sessions of the running streams of a cluster.
abbrev sessions_of : String → List Stream → List String
sessions_of key [] = []
sessions_of key (st ∷ sts) =
    let rest = sessions_of key sts in if str_eq (key_of st) key then st.session_id ∷ rest else rest

abbrev active_of : String → Server → List String
active_of key s = elim (get s.active key) [ none ↦ [] | some owner ↦ owner ∷ [] ]

-- The running streams of each cluster are the one that `active` names.
abbrev Inv : World → Type 0
Inv w = (key : String) → sessions_of key w.streams ≡ active_of key w.server

abbrev is_open : Opening → Bool
is_open (opened reply) = true
is_open _ = false

module _ (config : Config) (out : Outside) (h : AgentHello) (s : Server) (key : String) where
  abbrev opening : Opening × Server
  opening = connect config out (some (agent_hello h)) s

  -- A `Connect` that ends before its loop leaves `active`.
  connect-closed : is_open opening.0 ≡ false → get opening.1.active key ≡ get s.active key
  unfolding connect acquire release
  connect-closed e =
      let k = cluster_key h.tenant_id h.cluster_id in
      grind (arith, dict_laws, eq_iff k key, eq_iff k k, eq_iff out.session_id out.session_id)

  -- One that gets there has found no active stream, and is now the active one.
  connect-opened :
      is_open opening.0 ≡ true
      → let k = cluster_key h.tenant_id h.cluster_id in
        (get s.active k ≡ none)
        × (get opening.1.active key
            ≡ (if str_eq k key then some out.session_id else get s.active key))
  unfolding connect acquire release
  connect-opened e = grind (arith, dict_laws)

after_connect-closed :
    (w : World) (out : Outside) (first : Option AgentFrame) (r : Opening × Server)
    → is_open r.0 ≡ false
    → after_connect w out first r ≡ record w { server = r.1 }
unfolding after_connect
after_connect-closed w out first r e = ground arith

after_connect-opened :
    (w : World) (out : Outside) (h : AgentHello) (r : Opening × Server)
    → is_open r.0 ≡ true
    → after_connect w out (some (agent_hello h)) r ≡ record {
      server = r.1;
      streams = record { hello = h; session_id = out.session_id } ∷ w.streams;
    }
unfolding after_connect
after_connect-opened w out h r e = ground arith

connect-Inv :
    (config : Config) (out : Outside) (first : Option AgentFrame) (w : World)
    → Inv w
    → Inv (after_connect w out first (connect config out first w.server))
unfolding after_connect connect
connect-Inv config out none w h key = h key
connect-Inv config out (some (agent_hello hello)) w h key =
    let k = cluster_key hello.tenant_id hello.cluster_id in
    let r = connect config out (some (agent_hello hello)) w.server in
    elim (Bool-cases (is_open r.0)) [
      | inl e ↦
          let (free, now) = connect-opened config out hello w.server key e in
          rw (after_connect-opened w out hello r e)
            (ground (arith, h key, h k, free, now, eq_iff k key))
      | inr e ↦
          let same = connect-closed config out hello w.server key e in
          rw (after_connect-closed w out (some (agent_hello hello)) r e)
            (ground (arith, h key, same))
    ]
connect-Inv config out (some _) w h key = h key

on_batch-active :
    (codec : Codec) (key : String) (c : Frame × Queue) (s : Server)
    → (on_batch codec key c s).active ≡ s.active
unfolding on_batch
on_batch-active codec key (f, q) s = refl

batch-Inv :
    (codec : Codec) (config : Config) (w : World) (calls : Calls) (b : ObservationBatch) (q : Queue)
    (o : Option Stream)
    → Inv w
    → Inv (after_batch codec config w calls b q o)
unfolding after_batch on_batch
batch-Inv codec config w calls b q none h key = h key
batch-Inv codec config w calls b q (some st) h key = h key

stream_at-sessions :
    (sts : List Stream) (i : ℕ) {st : Stream}
    → stream_at sts i ≡ some st
    → 1 ≤ length (sessions_of (key_of st) sts)
stream_at-sessions [] i e = cc
stream_at-sessions (x ∷ sts) zero {st} e = ground (arith, eq_iff (key_of x) (key_of st))
stream_at-sessions (x ∷ sts) (suc i) e = ground (arith, stream_at-sessions sts i e)

without-other :
    (sts : List Stream) (i : ℕ) (key : String) {st : Stream}
    → stream_at sts i ≡ some st
    → str_eq (key_of st) key ≡ false
    → sessions_of key (without sts i) ≡ sessions_of key sts
without-other [] i key e ne = refl
without-other (x ∷ sts) zero key e ne = ground (arith, e, ne)
without-other (x ∷ sts) (suc i) key e ne = ground (arith, without-other sts i key e ne)

-- Where a cluster has one stream, it is the one that is taken off.
without-own :
    (sts : List Stream) (i : ℕ) {st : Stream} {owner : String}
    → stream_at sts i ≡ some st
    → sessions_of (key_of st) sts ≡ owner ∷ []
    → (owner ≡ st.session_id) × (sessions_of (key_of st) (without sts i) ≡ [])
without-own [] i e one = cc
without-own (x ∷ sts) zero {st} e one = ground (arith, e, one, eq_iff (key_of x) (key_of st))
without-own (x ∷ sts) (suc i) {st} {owner} e one =
    ground (arith, stream_at-sessions sts i e, without-own sts i {owner = owner} e)

release-active :
    (key session j : String) (s : Server)
    → str_eq key j ≡ false
    → get (release key session s).active j ≡ get s.active j
unfolding release
release-active key session j s ne = grind (arith, dict_laws)

release-own :
    (key session : String) (s : Server)
    → get s.active key ≡ some session
    → get (release key session s).active key ≡ none
unfolding release
release-own key session s e = grind (arith, dict_laws, eq_iff key key, eq_iff session session)

-- The end of the stream at `i`, as its own cluster sees it, and as all do.
module _ (w : World) (i : ℕ) (h : Inv w) (st : Stream) (e : stream_at w.streams i ≡ some st) where
  end_own :
      sessions_of (key_of st) (without w.streams i)
      ≡ active_of (key_of st) (release (key_of st) st.session_id w.server)
  end_own = elim (Option-cases (get w.server.active (key_of st))) [
    | inl n ↦
        let p = stream_at-sessions w.streams i e in
        let q : sessions_of (key_of st) w.streams ≡ [] = h (key_of st) ∙ ground (arith, n) in
        absurd (ground (arith, p, q))
    | inr (owner, n) ↦
        let q : sessions_of (key_of st) w.streams ≡ owner ∷ [] =
          h (key_of st) ∙ ground (arith, n) in
        let (own, gone) = without-own w.streams i e q in
        let free = release-own (key_of st) st.session_id w.server (rw (n, own) refl) in
        rw gone (ground (arith, free))
  ]

  end_at :
      (key : String)
      → sessions_of key (without w.streams i)
        ≡ active_of key (release (key_of st) st.session_id w.server)
  end_at key = elim (Bool-cases (str_eq (key_of st) key)) [
    | inl same ↦
        subst
          (λ k.
            sessions_of k (without w.streams i)
            ≡ active_of k (release (key_of st) st.session_id w.server))
          ((eq_iff (key_of st) key).0 same) end_own
    | inr other ↦ ground (
      arith,
      h key,
      without-other w.streams i key e other,
      release-active (key_of st) st.session_id key w.server other,
    )
  ]

end-Inv : (w : World) (i : ℕ) → Inv w → Inv (after_end w i (stream_at w.streams i))
unfolding after_end
end-Inv w i h key = elim (Option-cases (stream_at w.streams i)) [
  | inl e ↦ rw (e, after_end) (h key)
  | inr (st, e) ↦ rw (e, after_end) (end_at w i h st e key)
]

step-Inv :
    (codec : Codec) (config : Config) (w : World) (e : Event) → Inv w → Inv (step codec config w e)
unfolding step
step-Inv codec config w (connects out first) h = connect-Inv config out first w h
step-Inv codec config w (sends i calls b q) h =
    batch-Inv codec config w calls b q (stream_at w.streams i) h
step-Inv codec config w (ends i) h = end-Inv w i h

run-Inv :
    (codec : Codec) (config : Config) (w : World) (es : List Event)
    → Inv w
    → Inv (run codec config w es)
unfolding run
run-Inv codec config w [] h = h
run-Inv codec config w (e ∷ es) h =
    run-Inv codec config (step codec config w e) es (step-Inv codec config w e h)

-- The stream is one of this tenant and this cluster.
abbrev pub is_of : String → String → Stream → Bool
is_of tenant cluster st = str_eq st.hello.tenant_id tenant && str_eq st.hello.cluster_id cluster

is_of-key :
    (tenant cluster : String) (st : Stream)
    → is_of tenant cluster st ≡ true
    → str_eq (key_of st) (cluster_key tenant cluster) ≡ true
is_of-key tenant cluster st e =
    let t = (eq_iff st.hello.tenant_id tenant).0 (ground (arith, e)) in
    let c = (eq_iff st.hello.cluster_id cluster).0 (ground (arith, e)) in
    (eq_iff (key_of st) (cluster_key tenant cluster)).1 (rw (t, c) refl)

count-sessions :
    (tenant cluster : String) (sts : List Stream)
    → count (is_of tenant cluster) sts ≤ length (sessions_of (cluster_key tenant cluster) sts)
count-sessions tenant cluster [] = omega arith
count-sessions tenant cluster (st ∷ sts) =
    ground (arith, count-sessions tenant cluster sts, is_of-key tenant cluster st)

abbrev Names : Server → String → String → Type 0
Names s key session = get s.active key ≡ some session

listed :
    (o : Option String) → All (λ x. o ≡ some x) (elim o [ none ↦ [] | some owner ↦ owner ∷ [] ])
listed none = tt
listed (some owner) = (refl, tt)

active_of-Names : (key : String) (s : Server) → All (Names s key) (active_of key s)
active_of-Names key s = listed (get s.active key)

named :
    (s : Server) (sts : List Stream)
    → ((key : String) → All (Names s key) (sessions_of key sts))
    → All (λ st. Names s (key_of st) st.session_id) sts
named s [] h = tt
named s (st ∷ sts) h = (
  ground (arith, h (key_of st), eq_iff (key_of st) (key_of st)),
  named s sts λ key. ground (arith, h key),
)

-- After any calls of `Connect`, batches and ends of streams on a new server, in any order and with
-- any results of the authenticator, the checkpoint store and the sends: a tenant's cluster has at
-- most one stream in its loop, and a stream in its loop is the one that `active` names for it.
pub exclusive :
    (codec : Codec) (config : Config) (events : List Event) (tenant cluster : String)
    → let w = run codec config start events in
      (count (is_of tenant cluster) w.streams ≤ 1)
      × All (λ (st : Stream). get w.server.active (key_of st) ≡ some st.session_id) w.streams
exclusive codec config events tenant cluster =
    let w = run codec config start events in
    let h = run-Inv codec config start events (λ key. unfold get in refl) in
    let most = count-sessions tenant cluster w.streams in
    let one : length (sessions_of (cluster_key tenant cluster) w.streams) ≤ 1 =
      ground (arith, h (cluster_key tenant cluster)) in
    (
      omega (arith, most, one),
      named w.server w.streams λ key. rw (h key) (active_of-Names key w.server),
    )
