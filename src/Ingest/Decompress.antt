-- ===== src/Ingest/Decompress.antt =====
-- internal/ingest/decompress.go: the body of a request, decoded with a cap on its size. A reader is what
-- it gives and whether it fails behind that; the decoders are parameters.
use bug_han.Prelude.{
  ℕ, ◌+◌, ◌*◌, Bool, ◌&&◌, ◌||◌, Option, none, some, [], Bytes, codes, if◌then◌else◌, ltb, eqb,
  is_empty, length, take, to_lower, trim_space,
}

-- an io.Reader
pub record Reader : Type 0 where
  pub bytes : Bytes
  pub fails : Bool

pub record Decoders : Type 0 where
  -- `none` where the decoder cannot be made
  pub gzip : Reader → Option Reader
  pub zlib : Bytes → Option Reader
  pub flate : Bytes → Reader
  pub brotli : Reader → Reader
  pub zstd : Reader → Option Reader

pub data BodyError : Type 0 where
  bad_decoder read_failed too_large unsupported : BodyError

pub data Body : Type 0 where
  read : Bytes → Body
  unread : BodyError → Body

-- io.LimitReader: behind its limit a reader ends, and does not fail
pub limit_reader : ℕ → Reader → Reader
limit_reader n r = record { bytes = take n r.bytes; fails = r.fails && ltb (length r.bytes) n }

-- readCapped
pub read_capped : Reader → ℕ → Body
read_capped dec max_bytes =
    let out = limit_reader (max_bytes + 1) dec in
    if out.fails
    then unread read_failed
    else if ltb max_bytes (length out.bytes)
    then unread too_large
    else read out.bytes

-- the zlib reading of a deflate body; behind a failure that is not its size, raw DEFLATE is tried
pub zlib_or : Option Reader → Body → ℕ → Body
zlib_or none raw max_bytes = raw
zlib_or (some zr) raw max_bytes = elim (read_capped zr max_bytes) [
  | read out ↦ read out
  | unread e ↦ elim e [
    | too_large ↦ unread too_large
    | bad_decoder ↦ raw
    | read_failed ↦ raw
    | unsupported ↦ raw
  ]
]

pub capped : Option Reader → ℕ → Body
capped none max_bytes = unread bad_decoder
capped (some r) max_bytes = read_capped r max_bytes

module _ (decoders : Decoders) where
  -- the case "deflate"
  pub deflate : Reader → ℕ → Body
  deflate limited max_bytes =
      if limited.fails
      then unread read_failed
      else if is_empty limited.bytes
      then read []
      else zlib_or (decoders.zlib limited.bytes)
          (read_capped (decoders.flate limited.bytes) max_bytes) max_bytes

  -- Decompress
  pub decompress : Reader → Bytes → ℕ → Body
  decompress r content_encoding max_bytes =
      let limited = limit_reader (max_bytes * 2 + 1) r in
      let encoding = to_lower (trim_space content_encoding) in
      if is_empty encoding || eqb encoding (codes "identity")
      then read_capped limited max_bytes
      else if eqb encoding (codes "gzip")
      then capped (decoders.gzip limited) max_bytes
      else if eqb encoding (codes "deflate")
      then deflate limited max_bytes
      else if eqb encoding (codes "br")
      then read_capped (decoders.brotli limited) max_bytes
      else if eqb encoding (codes "zstd")
      then capped (decoders.zstd limited) max_bytes
      else unread unsupported
