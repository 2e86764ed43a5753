-- ===== src/Server/Session/Resume.antt =====
-- The stream of a cluster resumes where the last one ended.
use kube_cost.Prelude.{
  ℕ, ◌≡◌, ap, ◌∙◌, arith, String, true, Option, none, some, List, [], ◌∷◌, eq_iff,
}
use kube_cost.Prelude.Dict.{get, get-put, dict_laws}
use kube_cost.Wire.{Codec}
use kube_cost.Queue.{Queue}
use kube_cost.Server.Batch.{Frame, handle_batch}
use kube_cost.Server.Journal.{serve}
use kube_cost.Server.Session.{Server, acquired, acquire, release, on_batch, on_batches}

-- The cluster has a loaded watermark `p`, and `session` is its stream.
pub record Holds (key session : String) (p : ℕ) (s : Server) : Type 0 where
  pub state : get s.clusters key ≡ some (record { persisted_through = p; loaded = true })
  pub owner : get s.active key ≡ some session

acquire-Holds :
    (stored : Option ℕ) (key session : String) (s : Server) {p : ℕ}
    → (acquire stored key session s).0 ≡ acquired p
    → Holds key session p (acquire stored key session s).1
unfolding acquire
acquire-Holds stored key session s {p} e = grind (arith, dict_laws, eq_iff key key)

on_batches-Holds :
    (codec : Codec) (key session : String) (calls : List (Frame × Queue)) (s : Server) (p : ℕ)
    → Holds key session p s
    → Holds key session (serve codec calls p) (on_batches codec key calls s)
unfolding on_batches serve on_batch
on_batches-Holds codec key session [] s p h = h
on_batches-Holds codec key session ((f, q) ∷ cs) s p h =
    on_batches-Holds codec key session cs (on_batch codec key (f, q) s)
      (handle_batch codec f p q).persisted_through
      (grind (arith, get-put, eq_iff key key, h.state, h.owner))

release-owner :
    (key session : String) (s : Server) (p : ℕ)
    → Holds key session p s
    → (get (release key session s).active key ≡ none)
      × ((release key session s).clusters ≡ s.clusters)
unfolding release
release-owner key session s p h =
    grind (arith, dict_laws, eq_iff key key, eq_iff session session, h.owner)

acquire-loaded :
    (stored : Option ℕ) (key session : String) (s : Server) (p : ℕ)
    → get s.active key ≡ none
    → get s.clusters key ≡ some (record { persisted_through = p; loaded = true })
    → (acquire stored key session s).0 ≡ acquired p
unfolding acquire
acquire-loaded stored key session s p a c = ground (arith, a, c)

-- A stream that has acquired its cluster at the watermark `p`, made any calls of `handleBatch`, and
-- been released: the next stream of the cluster acquires it at the watermark that the calls have
-- reached, whatever the checkpoint store then returns.
pub resume :
    (codec : Codec) (stored stored' : Option ℕ) (key session session' : String)
    (calls : List (Frame × Queue)) (s : Server) {p : ℕ}
    → (acquire stored key session s).0 ≡ acquired p
    → let s' = release key session (on_batches codec key calls (acquire stored key session s).1) in
      (acquire stored' key session' s').0 ≡ acquired (serve codec calls p)
resume codec stored stored' key session session' calls s {p} e =
    let s1 = (acquire stored key session s).1 in
    let s2 = on_batches codec key calls s1 in
    let h = on_batches-Holds codec key session calls s1 p (acquire-Holds stored key session s e) in
    let r = release-owner key session s2 (serve codec calls p) h in
    acquire-loaded stored' key session' (release key session s2) (serve codec calls p) r.0
      (ap (λ m. get m key) r.1 ∙ h.state)
