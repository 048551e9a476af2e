-- ===== src/TlsBuff/Create.antt =====
-- `tls_buff_create` of 722device/server/tls_buff_queue.c on each of its paths.
use ai_coding_for_business.Common.{
  ℕ, ◌≡◌, ◌≢◌, ◌⊎◌, inl, inr, refl, sym, ap, ◌∙◌, subst, arith, none, some, ◌∷◌, some-inj,
}
use ai_coding_for_business.TlsBuff.{Buff, create, zero_buff, allocate_buffer, free_struct}
use ai_coding_for_business.TlsBuff.Memory.{
  Ptr, Mem, null, malloc, malloc-cases, Grants, malloc-granted,
}
use ai_coding_for_business.TlsBuff.Account.{count, free_lem}

-- A buffer with storage, of a size and a type, sent by UDP and of priority 0.
abbrev pub Created : (size type : ℕ) → Buff → Type 0
Created size type b =
    (b.buf ≢ null) × (b.buf_size ≡ size) × (b.type ≡ type) × (b.transmode ≡ 0) × (b.priority ≡ 0)

-- A refused request is not granted, and the second of two is not where the first one was granted.
refused-first : (m m1 : Mem) → malloc m ≡ some (null, m1) → ¬ Grants 2 m.granted
refused-first m m1 e h =
    let (p, m', ne, got, rest) = malloc-granted 1 m h in
    ne (ap (λ x. x.0) (some-inj {A = Ptr × Mem} (p, m') (null, m1) (sym got ∙ e)))

refused-second :
    (m m1 m2 : Mem) (p : Ptr)
    → malloc m ≡ some (p, m1)
    → malloc m1 ≡ some (null, m2)
    → ¬ Grants 2 m.granted
refused-second m m1 m2 p e1 e2 h =
    let (q, m', ne, got, rest) = malloc-granted 1 m h in
    let same : m' ≡ m1 = ap (λ x. x.1) (some-inj {A = Ptr × Mem} (q, m') (p, m1) (sym got ∙ e1)) in
    let (d, m'', dne, got', rest') =
      malloc-granted 0 m1 (subst (λ n. Grants 1 n.granted) same rest) in
    dne (ap (λ x. x.0) (some-inj {A = Ptr × Mem} (d, m'') (null, m2) (sym got' ∙ e2)))

-- With a size that is not 0, the outcome is one of two: no buffer, where one of the two requests for memory
-- is refused, and what is allocated is as before; or a buffer of the size and the type, with its
-- structure and its storage allocated beside the rest.
pub create-outcomes :
    (size type : ℕ) (m : Mem)
    → size ≢ 0
    → ((m' : Mem) × (create size type m ≡ some (none, m'))
        × ((r : Ptr) → count r m'.live ≡ count r m.live)
        × (¬ Grants 2 m.granted))
      ⊎ ((b : Buff) × (m' : Mem) × (create size type m ≡ some (some b, m'))
          × (m'.live ≡ b.buf ∷ b.self ∷ m.live)
          × Created size type b)
unfolding create allocate_buffer free_struct
create-outcomes size type m ne = elim (malloc-cases m) [
  | inl (m1, e1, l1) ↦ inl (m1, ground arith, (λ r. rw l1 refl), refused-first m m1 e1)
  | inr (p, m1, pne, e1, l1) ↦ elim (malloc-cases m1) [
    | inl (m2, e2, l2) ↦
        let (m3, e3, l3) = free_lem p m2 m.live (λ r. rw (l2, l1) refl) in
        inl (m3, ground arith, l3, refused-second m m1 m2 p e1 e2)
    | inr (d, m2, dne, e2, l2) ↦
        let b = record (zero_buff p) {
          buf_size = size;
          type = type;
          buf = d;
          bytes = m1.garbage d;
        } in
        inr (b, m2, ground arith, rw (l2, l1) refl, (dne, refl, refl, refl, refl))
  ]
]
