-- ===== src/Api/Pages/Cursors.antt =====
-- The cursors of internal/api/pagination.go.
use job_scheduling.Base.{
  ℕ, ◌≤◌, ◌≡◌, refl, false, some, List, [], ◌∷◌, ◌++◌, String, arith, ◌==◌, elem, ==_refl,
}
use job_scheduling.Api.Problem.{done, ◌>>=◌}
use job_scheduling.Api.Pages.{
  Codec, bar, encode_cursor, decode_cursor, split_at, page_limit, clamp_limit,
}

-- What the libraries document of their encodings: base64, times with the fractions they are given
-- and ids come back as they were, the empty text stands for no bytes, and no time has a bar in it.
pub record IsCodec (c : Codec) : Type 0 where
  pub decode-encode : (b : List ℕ) → c.decode64 (c.encode64 b) ≡ some b
  pub decode_empty : c.decode64 [] ≡ some []
  pub parse-format_time : (t : ℕ) → c.parse_time (c.format_time t) ≡ some t
  pub parse-format_id : (i : ℕ) → c.parse_id (c.format_id i) ≡ some i
  pub time_plain : (t : ℕ) → elem bar (c.format_time t) ≡ false

split_at-append :
    (sep : ℕ) (front back : List ℕ)
    → elem sep front ≡ false
    → split_at sep (front ++ sep ∷ back) ≡ some (front, back)
unfolding split_at elem
split_at-append sep [] back h = rw (split_at, ==_refl sep) refl
split_at-append sep (b ∷ bs) back h =
    let other : (b == sep) ≡ false = ground arith in
    let rest = split_at-append sep bs back (ground arith) in rw (split_at, other, rest) refl

decode_cursor_parts :
    (c : Codec) (text raw front back : List ℕ) (t i : ℕ)
    → c.decode64 [] ≡ some []
    → c.decode64 text ≡ some raw
    → split_at bar raw ≡ some (front, back)
    → c.parse_time front ≡ some t
    → c.parse_id back ≡ some i
    → decode_cursor c text ≡ done (some (t, i))
unfolding decode_cursor ◌>>=◌ split_at
decode_cursor_parts c [] raw front back t i h d s pt pi =
    let nothing : raw ≡ [] = ground arith in absurd (ground arith)
decode_cursor_parts c (b ∷ bs) raw front back t i h d s pt pi = rw (d, s, pt, pi) refl

-- A cursor that encodeCursor makes is read back by decodeCursor as the time and the id that it was
-- made of, if the encodings of the libraries come back as they were.
pub decode_cursor-encode_cursor :
    (c : Codec) (t i : ℕ) → IsCodec c → decode_cursor c (encode_cursor c t i) ≡ done (some (t, i))
unfolding encode_cursor
decode_cursor-encode_cursor c t i k =
    let front = c.format_time t in
    let back = c.format_id i in
    decode_cursor_parts c (encode_cursor c t i) (front ++ bar ∷ back) front back t i k.decode_empty
      (k.decode-encode (front ++ bar ∷ back)) (split_at-append bar front back (k.time_plain t))
      (k.parse-format_time t) (k.parse-format_id i)

-- A page has at least one row's room, and no more than a hundred's.
pub page_limit_bounds : (c : Codec) (v : String) → (1 ≤ page_limit c v) × (page_limit c v ≤ 100)
unfolding page_limit clamp_limit
page_limit_bounds c v = (ground arith, ground arith)
