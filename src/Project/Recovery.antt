-- ===== src/Project/Recovery.antt =====
-- Recovery reads what is recoverable, and nothing that was not stored as the manifest records it.
use serverless_db.Base.{
  ℕ, ◌≡◌, refl, String, none, some, List, [], ◌∷◌, arith, eq_iff, length, ap, subst, inl, inr,
}
use serverless_db.Error.{ok}
use serverless_db.Store.{World, exists, read_bytes}
use serverless_db.Types.{Bytes, Codec, WalSegmentManifest, DurableManifest}
use serverless_db.Io.{run-cases}
use serverless_db.Project.{
  Sqlite, load_manifest, restore_files, restore_snapshot, restore_manifest_wal,
  read_verified_object, restore_segments,
}
use serverless_db.Project.Chain.{
  IsStored, Chain, read_verified_object_complete, read_verified_object_sound,
  restore_segments_complete, restore_segments_sound, FromHere,
}
use serverless_db.Project.Durable.{IsRecoverable}

module _ (c : Codec) (s : Sqlite) where
  open c use {Doc, as_manifest}
  open s use {Content, read}

  -- A recoverable store is recovered when no call fails: the manifest loads, both files are
  -- restored, and a connection opened on them has the content.
  pub recovery_complete :
      (pid : String) (w : World Doc) (x : Content)
      → w.faults ≡ []
      → IsRecoverable c s pid w.objects x
      → (man : DurableManifest) × (db : Bytes) × (wal : Bytes) × (load_manifest c pid w
          ≡ (ok (some man), w))
        × (restore_files c man w ≡ (ok (db, wal), w))
        × (read db wal ≡ x)
  recovery_complete pid w x calm h = (
    h.man,
    h.db,
    h.wal,
    unfold load_manifest exists read_bytes in ground (arith, eq_iff h.man.project_id pid),
    unfold restore_files restore_snapshot restore_manifest_wal in
        ground (
          arith,
          read_verified_object_complete c w h.man.snapshot.key h.man.snapshot.bytes
              h.man.snapshot.sha256 h.db h.snap_stored calm,
          restore_segments_complete c w calm none [] h.chain tt,
          h.total,
        ),
    h.reads,
  )

  abbrev first_id : List WalSegmentManifest → ℕ
  first_id [] = 0
  first_id (m ∷ segments) = m.id

  -- Recovery fails closed, whichever calls fail: files that it returns are a snapshot and a WAL that
  -- lie in the store with the lengths and checksums of the manifest, the segments numbered and
  -- placed without a gap, and as long as the manifest says.
  pub restore_files_sound :
      (man : DurableManifest) (w w' : World Doc) (db wal : Bytes)
      → restore_files c man w ≡ (ok (db, wal), w')
      → IsStored c w.objects man.snapshot.key man.snapshot.bytes man.snapshot.sha256 db
        × Chain c w.objects (first_id man.wal.segments) 0 man.wal.segments wal
        × (length wal ≡ man.wal.durable_bytes)
  unfolding restore_files restore_snapshot restore_manifest_wal
  restore_files_sound man w w' db wal h =
      elim (run-cases
        (read_verified_object c man.snapshot.key man.snapshot.bytes man.snapshot.sha256 w)) [
          | inr (e, u, x) ↦ absurd (ground arith)
          | inl (b, u, x) ↦ elim (run-cases (restore_segments c man.wal.segments none 0 [] u)) [
            | inr (e, v, y) ↦ absurd (ground arith)
            | inl ((end, file), v, y) ↦
                let (st, same) =
                  read_verified_object_sound c w u man.snapshot.key man.snapshot.bytes
                    man.snapshot.sha256 b x in
                let (out, chain, files, ends) =
                  restore_segments_sound c man.wal.segments none (first_id man.wal.segments) 0 end
                    [] file u v (here man.wal.segments) y in
                let is_db : b ≡ db = ground arith in
                let is_wal : out ≡ wal = ground arith in
                (
                  subst
                      (IsStored c w.objects man.snapshot.key man.snapshot.bytes man.snapshot.sha256)
                      is_db st,
                  subst (Chain c w.objects (first_id man.wal.segments) 0 man.wal.segments) is_wal (
                      subst (λ m. Chain c m (first_id man.wal.segments) 0 man.wal.segments out) same
                        chain),
                  ground (arith, ap length is_wal),
                )
          ]
        ]
    where
      here : (ms : List WalSegmentManifest) → FromHere c none ms (first_id ms)
      here [] = refl
      here (m ∷ ms) = refl
