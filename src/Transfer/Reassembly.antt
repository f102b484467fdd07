-- ===== src/Transfer/Reassembly.antt =====
-- server/src/gawdxfer/manager.rs, `receive_chunk`: the writes of an upload's chunks, in any order,
-- put its file together.
pub mod Bytes
use sctl.Prelude.{
  ℕ, zero, suc, ◌+◌, ◌-◌, ◌*◌, ◌/◌, ◌^◌, ◌≤◌, ◌<◌, ◌≡◌, refl, sym, ap, ap₂, ◌∙◌, Bool, true, ◌&&◌,
  List, [], ◌∷◌, none, some, String, arith, leb, ltb, ◌==◌, if◌then◌else◌, length, take, drop,
  get_elem?, contains, map, Bool-cases, inl, inr, All, length-drop,
}
use sctl.Transfer.Types.{Transfer, FsCall, write_at}
use sctl.Transfer.Start.{compute_chunks}
use sctl.Transfer.Chunks.{chunk_offset, chunk_len}
use sctl.Transfer.Chunks.Receive.{chunk_write}
use sctl.Transfer.Validity.{IsValid}
use sctl.Transfer.Geometry.{chunk_bytes, total_chunks-covers, total_chunks-starts, chunk_size_pos}
use sctl.Transfer.Reassembly.Bytes.{
  write_bytes, length-write_bytes, get_elem?-write_bytes, get_elem?-drop, get_elem?-take,
  length-take_within, get_elem?-past, same_items,
}

-- What the writes among the calls make of a file.
abbrev pub apply_writes : List FsCall → List ℕ → List ℕ
apply_writes [] file = file
apply_writes (write_at path o bytes ∷ cs) file = apply_writes cs (write_bytes o bytes file)
apply_writes (c ∷ cs) file = apply_writes cs file

first_only : (i c : ℕ) → i < 1 → i * c ≡ 0
first_only zero c h = omega arith
first_only (suc i) c h = absurd (omega arith)

quotient_bounds : (p c : ℕ) → 0 < c → (p / c * c ≤ p) × (p < p / c * c + c)
quotient_bounds p c h = (grind arith, grind arith)

quotient_below : (p c n : ℕ) → 0 < c → p < n * c → p / c < n
quotient_below p c n h l = grind arith

module _ (t : Transfer) (content : List ℕ) (id : String) where
  -- The byte is in the chunk.
  abbrev in_chunk : ℕ → ℕ → Bool
  in_chunk i p = leb (chunk_offset t i) p && ltb p (chunk_offset t i + chunk_len t i)

  abbrev Same : List ℕ → ℕ → Type 0
  Same file p = get_elem? file p ≡ get_elem? content p

  -- The calls that write the chunks with the given indices.
  abbrev pub chunk_writes : List ℕ → List FsCall
  chunk_writes is = map (λ i. chunk_write t i (chunk_bytes t content i)) is

  module _ (whole : length content ≡ t.spec.file_size) (v : IsValid id t)
      (small : t.spec.file_size < 2 ^ 32) where
    length-chunk_bytes : (i : ℕ) → length (chunk_bytes t content i) ≡ chunk_len t i
    length-chunk_bytes i =
        length-take_within (chunk_len t i) (drop (chunk_offset t i) content)
          (omega (arith, length-drop (chunk_offset t i) content))

    chunk_fits :
        (i : ℕ) → i < t.spec.total_chunks → chunk_offset t i + chunk_len t i ≤ t.spec.file_size
    unfolding compute_chunks
    chunk_fits i h = elim (Bool-cases (t.spec.file_size == 0)) [
      | inl e ↦
          let one : t.spec.total_chunks ≡ 1 = ground (arith, e, v.counted) in
          ground (arith, e, first_only i t.spec.chunk_size)
      | inr e ↦ ground (
        arith,
        total_chunks-starts t.spec.file_size t.spec.chunk_size t.spec.total_chunks i small
            v.counted,
      )
    ]

    get_elem?-chunk_bytes :
        (i p : ℕ)
        → in_chunk i p ≡ true
        → get_elem? (chunk_bytes t content i) (p - chunk_offset t i) ≡ get_elem? content p
    get_elem?-chunk_bytes i p h =
        let o = chunk_offset t i in
        let near : p - o < chunk_len t i = ground (arith, h) in
        let back : o + (p - o) ≡ p = ground (arith, h) in
        get_elem?-take (chunk_len t i) (p - o) (drop o content) near
        ∙ get_elem?-drop o (p - o) content
        ∙ ap (get_elem? content) back

    abbrev put : ℕ → List ℕ → List ℕ
    put i file = write_bytes (chunk_offset t i) (chunk_bytes t content i) file

    length-put :
        (i : ℕ) (file : List ℕ)
        → i < t.spec.total_chunks
        → length file ≡ t.spec.file_size
        → length (put i file) ≡ t.spec.file_size
    length-put i file h l =
        length-write_bytes (chunk_offset t i) (chunk_bytes t content i) file
          (omega (arith, length-chunk_bytes i, chunk_fits i h))
        ∙ l

    put-bytes :
        (i : ℕ) (file : List ℕ) (p : ℕ)
        → i < t.spec.total_chunks
        → length file ≡ t.spec.file_size
        → get_elem? (put i file) p
          ≡ (if in_chunk i p then get_elem? content p else get_elem? file p)
    put-bytes i file p h l = ground (
      arith,
      length-chunk_bytes i,
      chunk_fits i h,
      get_elem?-write_bytes (chunk_offset t i) (chunk_bytes t content i) file p,
      get_elem?-chunk_bytes i p,
    )

    writes-keep :
        (is : List ℕ) (file : List ℕ)
        → All (λ i. i < t.spec.total_chunks) is
        → length file ≡ t.spec.file_size
        → (length (apply_writes (chunk_writes is) file) ≡ t.spec.file_size)
          × ((p : ℕ) → Same file p → Same (apply_writes (chunk_writes is) file) p)
    writes-keep [] file b l = (l, λ p h. h)
    writes-keep (i ∷ is) file b l =
        let rest = writes-keep is (put i file) b.1 (length-put i file b.0 l) in
        (rest.0, λ p h. rest.1 p (ground (arith, put-bytes i file p b.0 l, h)))

    writes-reach :
        (is : List ℕ) (file : List ℕ) (i p : ℕ)
        → All (λ j. j < t.spec.total_chunks) is
        → length file ≡ t.spec.file_size
        → contains i is ≡ true
        → in_chunk i p ≡ true
        → Same (apply_writes (chunk_writes is) file) p
    writes-reach [] file i p b l m h = absurd (ground (arith, m))
    writes-reach (j ∷ is) file i p b l m h = elim (Bool-cases (i == j)) [
      | inl e ↦
          let same : i ≡ j = ground (arith, e) in
          let here : in_chunk j p ≡ true = ap (λ k. in_chunk k p) (sym same) ∙ h in
          (writes-keep is (put j file) b.1 (length-put j file b.0 l)).1 p (
            put-bytes j file p b.0 l
            ∙ ap (λ x. if x then get_elem? content p else get_elem? file p) here)
      | inr e ↦
          writes-reach is (put j file) i p b.1 (length-put j file b.0 l) (ground (arith, m, e)) h
    ]

    covered :
        (p : ℕ)
        → p < t.spec.file_size
        → (p / t.spec.chunk_size < t.spec.total_chunks)
          × (in_chunk (p / t.spec.chunk_size) p ≡ true)
    covered p h =
        let c = t.spec.chunk_size in
        let pos : 0 < c =
          chunk_size_pos t.spec.file_size c t.spec.total_chunks v.counted (omega arith) in
        let reach = total_chunks-covers t.spec.file_size c t.spec.total_chunks small v.counted in
        (
          quotient_below p c t.spec.total_chunks pos (omega (arith, reach)),
          ground (arith, quotient_bounds p c pos),
        )

    -- The writes of the chunks of a well formed transfer of a file below 2^32 bytes, in any order and
    -- with repetitions, as long as every chunk is among them, turn any file of its size into the
    -- content whose chunks they are.
    pub apply_writes-chunk_writes :
        (is file : List ℕ)
        → All (λ i. i < t.spec.total_chunks) is
        → ((i : ℕ) → i < t.spec.total_chunks → contains i is ≡ true)
        → length file ≡ t.spec.file_size
        → apply_writes (chunk_writes is) file ≡ content
    apply_writes-chunk_writes is file b every l = same_items _ content at
      where
        at : (p : ℕ) → Same (apply_writes (chunk_writes is) file) p
        at p = elim (Bool-cases (ltb p t.spec.file_size)) [
          | inl e ↦
              let c = covered p (ground (arith, e)) in
              writes-reach is file (p / t.spec.chunk_size) p b l (every (p / t.spec.chunk_size) c.0)
                c.1
          | inr e ↦
              get_elem?-past (apply_writes (chunk_writes is) file) p
                (ground (arith, e, (writes-keep is file b l).0))
              ∙ sym (get_elem?-past content p (ground (arith, e)))
        ]
