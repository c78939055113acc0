-- ===== src/Project/Chain.antt =====
-- Chains of WAL segments in the object store, and what recovery reads of them.
use serverless_db.Base.{
  ℕ, ◌+◌, ◌≡◌, refl, ap, sym, subst, ◌∙◌, Text, Option, none, some, List, [], ◌∷◌, ◌++◌, arith,
  length, length-append, inl, inr, Option-cases,
}
use mathlib.Core.List.{append_assoc, append-nil}
use serverless_db.Error.{ok}
use serverless_db.Io.{run-cases}
use serverless_db.Text.Equality.{text_eq_iff}
use serverless_db.Store.{Key, World, lookup, read_bytes}
use serverless_db.Types.{Bytes, Codec, WalSegmentManifest}
use serverless_db.Project.{read_verified_object, restore_segments}

abbrev pub sum_len : List WalSegmentManifest → ℕ
sum_len [] = 0
sum_len (m ∷ segments) = m.len + sum_len segments

module _ (c : Codec) where
  open c use {Doc, raw, bytes, bytes-raw, sha256}

  -- An object with these bytes, whose length and checksum are as recorded.
  pub record IsStored (objects : List (Key × Doc)) (key : Key) (len : ℕ) (sum : Text) (b : Bytes)
      : Type 0 where
    pub doc : Doc
    pub found : lookup key objects ≡ some doc
    pub content : bytes doc ≡ b
    pub size : length b ≡ len
    pub checksum : sha256 b ≡ sum

  -- Segments numbered from `first` on, one behind the other from `offset` on, that spell `wal`.
  pub data Chain (objects : List (Key × Doc))
      : ℕ → ℕ → List WalSegmentManifest → Bytes → Type 0 where
    none_left : {first offset : ℕ} → Chain objects first offset [] []
    segment :
        {first offset : ℕ} {wal : Bytes} {segments : List WalSegmentManifest}
        (m : WalSegmentManifest) (b : Bytes)
        → m.id ≡ first
        → m.offset ≡ offset
        → IsStored objects m.key m.len m.sha256 b
        → Chain objects (first + 1) (offset + m.len) segments wal
        → Chain objects first offset (m ∷ segments) (b ++ wal)

  -- A stored object is read back when no call fails.
  pub read_verified_object_complete :
      (w : World Doc) (key : Key) (len : ℕ) (sum : Text) (b : Bytes)
      → IsStored w.objects key len sum b
      → w.faults ≡ []
      → read_verified_object c key len sum w ≡ (ok b, w)
  unfolding read_verified_object read_bytes
  read_verified_object_complete w key len sum b h calm =
      ground
        (arith, text_eq_iff (sha256 (bytes h.doc)) sum, ap length h.content, ap sha256 h.content)

  -- What is read is what was stored, whichever calls fail.
  pub read_verified_object_sound :
      (w w' : World Doc) (key : Key) (len : ℕ) (sum : Text) (b : Bytes)
      → read_verified_object c key len sum w ≡ (ok b, w')
      → IsStored w.objects key len sum b × (w'.objects ≡ w.objects)
  unfolding read_verified_object read_bytes
  read_verified_object_sound w w' key len sum b h = elim (Option-cases (lookup key w.objects)) [
    | inl e ↦ absurd (ground arith)
    | inr (d, e) ↦ (
      record {
        doc = d;
        found = e;
        content = ground arith;
        size = ground arith;
        checksum = ground (arith, text_eq_iff (sha256 (bytes d)) sum);
      },
      ground arith,
    )
  ]

  pub length-Chain :
      {objects : List (Key × Doc)} {first offset : ℕ} {segments : List WalSegmentManifest}
      {wal : Bytes}
      → Chain objects first offset segments wal
      → length wal ≡ sum_len segments
  length-Chain none_left = refl
  length-Chain (segment {wal = wal} m b _ _ st rest) =
      omega (arith, length-append b wal, st.size, length-Chain rest)

  abbrev pub Expects : Option ℕ → ℕ → Type 0
  Expects none first = Unit {0}
  Expects (some id) first = id ≡ first

  restore_step :
      (m : WalSegmentManifest) (segments : List WalSegmentManifest) (expected : Option ℕ)
      (offset : ℕ) (file b : Bytes) (w u : World Doc)
      → Expects expected m.id
      → m.offset ≡ offset
      → read_verified_object c m.key m.len m.sha256 w ≡ (ok b, u)
      → restore_segments c (m ∷ segments) expected offset file w
        ≡ restore_segments c segments (some (m.id + 1)) (offset + m.len) (file ++ b) u
  unfolding restore_segments
  restore_step m segments none offset file b w u e o r = ground arith
  restore_step m segments (some id) offset file b w u e o r = ground arith

  -- A step that succeeds was in sequence and read a stored object.
  restore_step_inv :
      (m : WalSegmentManifest) (segments : List WalSegmentManifest) (expected : Option ℕ)
      (offset end : ℕ) (file out : Bytes) (w w' : World Doc)
      → restore_segments c (m ∷ segments) expected offset file w ≡ (ok (end, out), w')
      → (b : Bytes) × (u : World Doc) × (m.offset ≡ offset)
        × Expects expected m.id
        × (read_verified_object c m.key m.len m.sha256 w ≡ (ok b, u))
        × (restore_segments c segments (some (m.id + 1)) (offset + m.len) (file ++ b) u
            ≡ (ok (end, out), w'))
  unfolding restore_segments
  restore_step_inv m segments none offset end file out w w' h =
      elim (run-cases (read_verified_object c m.key m.len m.sha256 w)) [
        | inl (b, u, e) ↦ (b, u, ground arith, tt, e, ground arith)
        | inr (x, u, e) ↦ absurd (ground arith)
      ]
  restore_step_inv m segments (some id) offset end file out w w' h =
      elim (run-cases (read_verified_object c m.key m.len m.sha256 w)) [
        | inl (b, u, e) ↦ (b, u, ground arith, ground arith, e, ground arith)
        | inr (x, u, e) ↦ absurd (ground arith)
      ]

  module _ (w : World Doc) (calm : w.faults ≡ []) where
    -- Recovery reads a chain to its end when no call fails.
    pub restore_segments_complete :
        {first offset : ℕ} {segments : List WalSegmentManifest} {wal : Bytes} (expected : Option ℕ)
        (file : Bytes)
        → Chain w.objects first offset segments wal
        → Expects expected first
        → restore_segments c segments expected offset file w
          ≡ (ok (offset + length wal, file ++ wal), w)
    restore_segments_complete {first} {offset} expected file none_left e =
        unfold restore_segments in ground (arith, append-nil file)
    restore_segments_complete {first} {offset} expected file
          (segment {wal = wal} {segments = segments} m b i o st rest) e =
        restore_step m segments expected offset file b w w (subst (Expects expected) (sym i) e) o
          (read_verified_object_complete w m.key m.len m.sha256 b st calm)
        ∙ restore_segments_complete (some (m.id + 1)) (file ++ b) rest (ap (λ (n : ℕ). n + 1) i)
        ∙ ground (arith, append_assoc file b wal, length-append b wal, st.size)

  Chain-objects :
      {objects : List (Key × Doc)} {first offset : ℕ} {segments : List WalSegmentManifest}
      {wal : Bytes} (objects' : List (Key × Doc))
      → objects' ≡ objects
      → Chain objects' first offset segments wal
      → Chain objects first offset segments wal
  Chain-objects {first = first} {offset = offset} {segments = segments} {wal = wal} objects' e h =
      subst (λ m. Chain m first offset segments wal) e h

  abbrev pub FromHere : Option ℕ → List WalSegmentManifest → ℕ → Type 0
  FromHere (some id) segments first = first ≡ id
  FromHere none [] first = first ≡ 0
  FromHere none (m ∷ segments) first = first ≡ m.id

  -- What recovery reads is a chain, whichever calls fail.
  pub restore_segments_sound :
      (segments : List WalSegmentManifest) (expected : Option ℕ) (first offset end : ℕ)
      (file out : Bytes) (w w' : World Doc)
      → FromHere expected segments first
      → restore_segments c segments expected offset file w ≡ (ok (end, out), w')
      → (wal : Bytes) × Chain w.objects first offset segments wal
        × (out ≡ file ++ wal)
        × (end ≡ offset + length wal)
  restore_segments_sound [] expected first offset end file out w w' f h = (
    [],
    none_left,
    unfold restore_segments in ground (arith, append-nil file),
    unfold restore_segments in ground arith,
  )
  restore_segments_sound (m ∷ segments) expected first offset end file out w w' f h =
      let (b, u, o, e, r, rest) = restore_step_inv m segments expected offset end file out w w' h in
      let (st, same) = read_verified_object_sound w u m.key m.len m.sha256 b r in
      let (wal, chain, outs, ends) =
        restore_segments_sound segments (some (m.id + 1)) (m.id + 1) (offset + m.len) end
          (file ++ b) out u w' refl rest in
      let i : m.id ≡ first = is_first expected f e in
      (
        b ++ wal,
        segment m b i o st (
            subst (λ n. Chain w.objects (n + 1) (offset + m.len) segments wal) i
              (Chain-objects u.objects same chain)),
        outs ∙ append_assoc file b wal,
        omega (arith, ends, length-append b wal, st.size),
      )
    where
      is_first : (x : Option ℕ) → FromHere x (m ∷ segments) first → Expects x m.id → m.id ≡ first
      is_first none f e = sym f
      is_first (some id) f e = sym e ∙ sym f
