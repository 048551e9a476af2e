-- ===== src/TlsServer/Publish/Layout.antt =====
-- What the stores through a `tls_vsoa_hdr_t` leave in the storage.
use ai_coding_for_business.Common.{
  ℕ, ◌+◌, ◌≤◌, ◌<◌, ◌≡◌, ap, ◌∙◌, arith, List, [], ◌∷◌, length, write, cells, u64_at, le64,
  le_value, le_value-le64,
}
use ai_coding_for_business.TlsBuff.{Buff}
use ai_coding_for_business.TlsServer.Fill.{write_all, Fits, cells-stored}
use ai_coding_for_business.TlsServer.Publish.{Url, Payload, hdr_stores}

-- A `tls_vsoa_hdr_t` at an offset, with its url and its payload behind it.
pub record IsHdr (f : ℕ → ℕ) (base : ℕ) (url : Url) (p : Payload) : Type 0 where
  pub url_size : u64_at f (base + 8) ≡ length url
  pub param_size : u64_at f (base + 24) ≡ length p.param
  pub data_size : u64_at f (base + 40) ≡ length p.content
  pub url_bytes : cells f (base + 48) (length url) ≡ url
  pub param_bytes : cells f (base + 48 + length url) (length p.param) ≡ p.param
  pub data_bytes : cells f (base + 48 + length url + length p.param) (length p.content) ≡ p.content

module _ (f : ℕ → ℕ) (b : Buff) (base : ℕ) (url : Url) (p : Payload) where
  abbrev url_at : ℕ
  url_at = base + 48

  abbrev param_at : ℕ
  param_at = url_at + length url

  abbrev data_at : ℕ
  data_at = param_at + length p.param

  abbrev after_sizes : List (ℕ × List ℕ)
  after_sizes =
      (base, le64 (b.buf + url_at))
      ∷ (url_at, url)
      ∷ (base + 16, le64 (b.buf + param_at))
      ∷ (param_at, p.param)
      ∷ (base + 32, le64 (b.buf + data_at))
      ∷ (data_at, p.content)
      ∷ []

  url_size_read : cells (write_all f (hdr_stores b base url p)) (base + 8) 8 ≡ le64 (length url)
  url_size_read =
      cells-stored f (base + 8) (le64 (length url))
        ((base + 24, le64 (length p.param)) ∷ (base + 40, le64 (length p.content)) ∷ after_sizes)
        (ground arith)

  abbrev sized : ℕ → ℕ
  sized = write f (base + 8) (le64 (length url))

  abbrev sized_param : ℕ → ℕ
  sized_param = write sized (base + 24) (le64 (length p.param))

  abbrev sized_all : ℕ → ℕ
  sized_all = write sized_param (base + 40) (le64 (length p.content))

  param_size_read :
      cells (write_all f (hdr_stores b base url p)) (base + 24) 8 ≡ le64 (length p.param)
  param_size_read =
      cells-stored sized (base + 24) (le64 (length p.param))
        ((base + 40, le64 (length p.content)) ∷ after_sizes) (ground arith)

  data_size_read :
      cells (write_all f (hdr_stores b base url p)) (base + 40) 8 ≡ le64 (length p.content)
  data_size_read =
      cells-stored sized_param (base + 40) (le64 (length p.content)) after_sizes (ground arith)

  url_read : cells (write_all f (hdr_stores b base url p)) url_at (length url) ≡ url
  url_read =
      cells-stored (write sized_all base (le64 (b.buf + url_at))) url_at url
        ((base + 16, le64 (b.buf + param_at))
          ∷ (param_at, p.param)
          ∷ (base + 32, le64 (b.buf + data_at))
          ∷ (data_at, p.content)
          ∷ [])
        (ground arith)

  param_read : cells (write_all f (hdr_stores b base url p)) param_at (length p.param) ≡ p.param
  param_read =
      cells-stored
        (write (write (write sized_all base (le64 (b.buf + url_at))) url_at url) (base + 16)
          (le64 (b.buf + param_at)))
        param_at p.param ((base + 32, le64 (b.buf + data_at)) ∷ (data_at, p.content) ∷ [])
        (ground arith)

  data_read : cells (write_all f (hdr_stores b base url p)) data_at (length p.content) ≡ p.content
  data_read =
      cells-stored
        (write_all sized_all (
          (base, le64 (b.buf + url_at))
          ∷ (url_at, url)
          ∷ (base + 16, le64 (b.buf + param_at))
          ∷ (param_at, p.param)
          ∷ (base + 32, le64 (b.buf + data_at))
          ∷ []))
        data_at p.content [] tt

  -- The three sizes are numbers of 64 bits.
  pub hdr_stores-IsHdr :
      length url < 18446744073709551616
      → length p.param < 18446744073709551616
      → length p.content < 18446744073709551616
      → IsHdr (write_all f (hdr_stores b base url p)) base url p
  hdr_stores-IsHdr h k l = record {
    url_size = ap le_value url_size_read ∙ le_value-le64 (length url) ∙ omega arith;
    param_size = ap le_value param_size_read ∙ le_value-le64 (length p.param) ∙ omega arith;
    data_size = ap le_value data_size_read ∙ le_value-le64 (length p.content) ∙ omega arith;
    url_bytes = url_read;
    param_bytes = param_read;
    data_bytes = data_read;
  }

  pub hdr_stores-Fits :
      (n : ℕ)
      → base + 48 + length url + length p.param + length p.content ≤ n
      → Fits n (hdr_stores b base url p)
  hdr_stores-Fits n h = ground arith
