-- ===== src/Project/Replica/Following.antt =====
-- A replica never goes back.
use serverless_db.Base.{ℕ, ◌≤◌, ◌≡◌, refl, none, some, arith, inl, inr}
use serverless_db.Io.{run-cases}
use serverless_db.Types.{Codec, Runtime, DurableManifest}
use serverless_db.Project.{Sqlite, Machine, load_manifest}
use serverless_db.Project.Replica.{
  manifest_commit_seq, rehydrate_state_from_manifest, refresh_replica_state,
}

module _ (c : Codec) (s : Sqlite) (rt : Runtime) (now : ℕ) where
  open c use {Doc}
  open s use {Conn}

  rehydrate_moves :
      (m : DurableManifest) (x : Machine Doc Conn) (n : ℕ)
      → x.state.commit_seq ≡ n
      → n ≤ manifest_commit_seq (some m)
      → n ≤ (rehydrate_state_from_manifest c s rt now m x).1.state.commit_seq
  unfolding rehydrate_state_from_manifest
  rehydrate_moves m x n e h = ground (arith, e, h)

  -- A refresh of a replica never lowers its sequence number, whether it succeeds or fails and
  -- whichever calls fail.
  pub refresh_replica_state_monotone :
      (requested : ℕ) (x : Machine Doc Conn)
      → x.state.commit_seq ≤ (refresh_replica_state c s rt now requested x).1.state.commit_seq
  unfolding refresh_replica_state
  refresh_replica_state_monotone requested x =
      elim (run-cases (load_manifest c x.state.project_id x.world)) [
        | inr (e, w, q) ↦ ground (arith, q)
        | inl (none, w, q) ↦ ground (arith, q)
        | inl (some m, w, q) ↦
            let y : Machine Doc Conn = record x { world = w } in
            ground (arith, q, rehydrate_moves m y x.state.commit_seq refl)
      ]
