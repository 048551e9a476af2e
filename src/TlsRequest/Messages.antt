-- ===== src/TlsRequest/Messages.antt =====
-- The messages of 722device/server/tls_request.c: the request that is published, and the response that is copied
-- for the application.
use ai_coding_for_business.Common.{
  ℕ, zero, suc, ◌+◌, ◌%◌, ◌≤◌, ◌<◌, ◌≡◌, refl, ap, ◌∙◌, arith, inl, inr, Bool-cases, if◌then◌else◌,
  ◌==◌, List, length, write, cells, cells_congr, u16_at, u32_at, u16_at-be16, u32_at-be32,
}
use ai_coding_for_business.State.{Param}
use ai_coding_for_business.TlsRequest.{
  LinkRequest, link_status_request, status_request, session_id, LinkResult, copy_linkinfo, answered,
  Command, path_msg_size,
}

-- What has been copied is there.
write-cells :
    (f msg : ℕ → ℕ) (off n i : ℕ) → off ≤ i → i < off + n → write f off (cells msg off n) i ≡ msg i
write-cells f msg off zero i lo hi = absurd (omega arith)
write-cells f msg off (suc n) i lo hi = elim (Bool-cases (i == off)) [
  | inl here ↦ rw here (ap msg (ground arith))
  | inr later ↦ rw later (write-cells f msg (suc off) n i (ground arith) (omega arith))
]

abbrev linkinfo : (a b c d e r n : ℕ) → List ℕ → LinkResult
linkinfo a b c d e r n paths = record {
  src_app_id = a;
  src_entity_id = b;
  dst_app_id = c;
  dst_entity_id = d;
  reserve = e;
  result = if r == 0 then 1 else 0;
  pathnum = n;
  pathinfo = paths;
}

module _ (f g : ℕ → ℕ) (n : ℕ) (h : (i : ℕ) → i < n → f i ≡ g i) where
  u16_congr : (off : ℕ) → suc off < n → u16_at f off ≡ u16_at g off
  u16_congr off lt = omega (arith, h off (omega arith), h (suc off) lt)

  u32_congr : (off : ℕ) → suc (suc (suc off)) < n → u32_at f off ≡ u32_at g off
  u32_congr off lt = omega (
    arith,
    h off (omega arith),
    h (suc off) (omega arith),
    h (suc (suc off)) (omega arith),
    h (suc (suc (suc off))) lt,
  )

  linkinfo_congr :
      (paths : ℕ)
      → 42 + paths ≤ n
      → linkinfo
          (u32_at f 24)
          (u16_at f 28)
          (u32_at f 30)
          (u16_at f 34)
          (u32_at f 36)
          (f 40)
          (f 41)
          (cells f 42 paths)
        ≡ linkinfo
            (u32_at g 24)
            (u16_at g 28)
            (u32_at g 30)
            (u16_at g 34)
            (u32_at g 36)
            (g 40)
            (g 41)
            (cells g 42 paths)
  linkinfo_congr paths le =
      let tail_of = cells_congr f g 42 paths (λ j lo hi. h j (omega arith)) in
      ap
        (λ x.
          linkinfo x (u16_at f 28) (u32_at f 30) (u16_at f 34) (u32_at f 36) (f 40) (f 41)
            (cells f 42 paths))
        (u32_congr 24 (omega arith))
      ∙ ap
          (λ x.
            linkinfo (u32_at g 24) x (u32_at f 30) (u16_at f 34) (u32_at f 36) (f 40) (f 41)
              (cells f 42 paths))
          (u16_congr 28 (omega arith))
      ∙ ap
          (λ x.
            linkinfo (u32_at g 24) (u16_at g 28) x (u16_at f 34) (u32_at f 36) (f 40) (f 41)
              (cells f 42 paths))
          (u32_congr 30 (omega arith))
      ∙ ap
          (λ x.
            linkinfo (u32_at g 24) (u16_at g 28) (u32_at g 30) x (u32_at f 36) (f 40) (f 41)
              (cells f 42 paths))
          (u16_congr 34 (omega arith))
      ∙ ap
          (λ x.
            linkinfo (u32_at g 24) (u16_at g 28) (u32_at g 30) (u16_at g 34) x (f 40) (f 41)
              (cells f 42 paths))
          (u32_congr 36 (omega arith))
      ∙ ap
          (λ x.
            linkinfo (u32_at g 24) (u16_at g 28) (u32_at g 30) (u16_at g 34) (u32_at g 36) x (f 41)
              (cells f 42 paths))
          (h 40 (omega arith))
      ∙ ap
          (λ x.
            linkinfo (u32_at g 24) (u16_at g 28) (u32_at g 30) (u16_at g 34) (u32_at g 36) (g 40) x
              (cells f 42 paths))
          (h 41 (omega arith))
      ∙ ap
          (λ x.
            linkinfo (u32_at g 24) (u16_at g 28) (u32_at g 30) (u16_at g 34) (u32_at g 36) (g 40)
              (g 41) x)
          tail_of

-- What is read of the copy of a response is what the response says.
pub copy_linkinfo-answered :
    (c : Command) (msg : ℕ → ℕ) → copy_linkinfo (answered c msg).cmd_data ≡ copy_linkinfo msg
copy_linkinfo-answered c msg =
    linkinfo_congr (write c.cmd_data 0 (cells msg 0 path_msg_size)) msg path_msg_size
      (λ i lt. write-cells c.cmd_data msg 0 path_msg_size i (omega arith) (omega (arith, lt))) 452
      (omega arith)

-- What the bytes of a request say, in network byte order.
pub record SaysRequest (m : ℕ → ℕ) (p : Param) (sequence : ℕ) (id : ℕ → ℕ) (q : LinkRequest)
    : Type 0 where
  pub type : m 1 ≡ link_status_request
  pub number : u16_at m 6 ≡ sequence % 65536
  pub session : session_id m ≡ cells id 0 16
  pub src_addr : u32_at m 24 ≡ p.local_id % 4294967296
  pub src_entry : u16_at m 28 ≡ p.local_sub_id % 65536
  pub dst_addr : u32_at m 30 ≡ q.dst_app_id % 4294967296
  pub dst_entry : u16_at m 34 ≡ q.dst_entity_id % 65536
  pub policy : m 36 ≡ 0

-- The request has 41 bytes and says its number, its id, and the two ends. Its policy is always 0 where it is one of
-- those that are defined, all below 256: `htons` moves it into the byte that is cut off.
pub status_request-says :
    (f : ℕ → ℕ) (p : Param) (sequence : ℕ) (id : ℕ → ℕ) (q : LinkRequest)
    → q.path_policy < 256
    → (length (status_request p sequence (cells id 0 16) q) ≡ 41)
      × SaysRequest (write f 0 (status_request p sequence (cells id 0 16) q)) p sequence id q
status_request-says f p sequence id q small = (
  refl,
  record {
    type = refl;
    number = u16_at-be16 sequence;
    session = refl;
    src_addr = u32_at-be32 p.local_id;
    src_entry = u16_at-be16 p.local_sub_id;
    dst_addr = u32_at-be32 q.dst_app_id;
    dst_entry = u16_at-be16 q.dst_entity_id;
    policy = omega (arith, small);
  },
)
