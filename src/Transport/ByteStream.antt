-- ===== src/Transport/ByteStream.antt =====
-- The receiving half of a stream, `AsyncRead` of tokio over quinn, as src/quic_transport uses it: a
-- parameter, with the documented behaviour of `read_exact`.
use lan_mouse_pro.Common.{ℕ, ◌≡◌, ◌≤◌, ◌<◌, List, length, take, drop}

-- What `read_exact` answers: the bytes, `UnexpectedEof`, or another error.
pub data Exact (S : Type 0) : Type 0 where
  full : List ℕ → S → Exact S
  eof : Exact S
  io_error : Exact S

-- `content` is all that the peer sends before it closes its half, whatever chunks it arrives in.
pub record ByteStream (S : Type 0) : Type 0 where
  pub read_exact : ℕ → S → Exact S
  pub content : S → List ℕ
  pub enough :
      (n : ℕ) (s : S)
      → n ≤ length (content s)
      → (rest : S) × ((read_exact n s ≡ Exact.full (take n (content s)) rest)
          × (content rest ≡ drop n (content s)))
  pub short : (n : ℕ) (s : S) → length (content s) < n → read_exact n s ≡ Exact.eof
