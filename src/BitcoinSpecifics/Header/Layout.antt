-- ===== src/BitcoinSpecifics/Header/Layout.antt =====
-- `decode_block_header` against the 80-byte layout of a Bitcoin header.
use mlbtcc.Base.{
  ℕ, ◌+◌, ◌%◌, ◌^◌, ◌≤◌, ◌<◌, ◌≡◌, ◌∙◌, none, some, arith, zero, suc, ◌∷◌, length, take, drop, ◌++◌,
  [],
}
use mlbtcc.Base.{length-take, length-drop, >>=-none, none->>=, refl}
use mlbtcc.Base.{Bool-cases, ltb, inl, inr, ◌↔◌, Option}
use mlbtcc.Base.{sym, ap, append_assoc, length-append}
use mlbtcc.Base.Bytes.{Bytes, copy, copy_of_le, copy_of_lt, copy-append, from_le, to_le}
use mlbtcc.BitcoinSpecifics.Reverse.{reverse_string}
use mlbtcc.BitcoinSpecifics.Reverse.Swaps.{reverse_string_whole}
use mlbtcc.BitcoinSpecifics.Header.{decode_block_header}
use mlbtcc.Structs.{BlockHeader}
use mathlib.Core.List.{reverse}
use native.Mathlib.Nat.{zero-add, suc-add}

-- The fields of a header as Bitcoin defines them.
pub record RawHeader : Type 0 where
  pub version : ℕ
  pub prev : Bytes
  pub root : Bytes
  pub time : ℕ
  pub bits : ℕ
  pub nonce : ℕ

pub record IsHeader (h : RawHeader) : Type 0 where
  pub version_fits : h.version < 2 ^ 32
  pub prev_size : length h.prev ≡ 32
  pub root_size : length h.root ≡ 32
  pub time_fits : h.time < 2 ^ 32
  pub bits_fits : h.bits < 2 ^ 32
  pub nonce_fits : h.nonce < 2 ^ 32

-- The 80 bytes of a header, followed by `rest`.
unfoldable pub header_bytes : RawHeader → Bytes → Bytes
header_bytes h rest =
    to_le 4 h.version
    ++ (h.prev ++ (h.root ++ (to_le 4 h.time ++ (to_le 4 h.bits ++ (to_le 4 h.nonce ++ rest)))))

pub header_bytes-append :
    (h : RawHeader) (rest : Bytes) → header_bytes h rest ≡ header_bytes h [] ++ rest
unfolding header_bytes
header_bytes-append h rest =
    let tail = to_le 4 h.time ++ (to_le 4 h.bits ++ to_le 4 h.nonce) in
    ap (λ (l : Bytes). to_le 4 h.version ++ l)
      (sym (
        append_assoc h.prev (h.root ++ tail) rest
        ∙ ap (λ (l : Bytes). h.prev ++ l) (append_assoc h.root tail rest)))

pub length-header_bytes : (h : RawHeader) → IsHeader h → length (header_bytes h []) ≡ 80
unfolding header_bytes
length-header_bytes h w =
    let tail = to_le 4 h.time ++ (to_le 4 h.bits ++ to_le 4 h.nonce) in
    omega (
      arith,
      w.prev_size,
      w.root_size,
      length-append h.prev (h.root ++ tail),
      length-append h.root tail,
    )

pub drop_more :
    (n k : ℕ) (front back : Bytes) → length front ≡ n → drop (n + k) (front ++ back) ≡ drop k back
drop_more zero k [] back h = ground (arith, zero-add k)
drop_more zero k (b ∷ front) back h = absurd (omega arith)
drop_more (suc n) k [] back h = absurd (omega arith)
drop_more (suc n) k (b ∷ front) back h = rw (suc-add n k) (drop_more n k front back (omega arith))

-- A field behind a known prefix.
behind :
    (n k m : ℕ) (front back : Bytes) {field : Bytes}
    → length front ≡ n
    → copy m (drop k back) ≡ some field
    → copy m (drop (n + k) (front ++ back)) ≡ some field
behind n k m front back h e = rw (drop_more n k front back h) e

-- The decoder from the eight pieces that it copies.
decode_pieces :
    (raw version prev root time bits nonce : Bytes)
    → copy 4 raw ≡ some version
    → copy 32 (drop 4 raw) ≡ some prev
    → copy 32 (drop 36 raw) ≡ some root
    → copy 4 (drop 68 raw) ≡ some time
    → copy 4 (drop 72 raw) ≡ some bits
    → copy 4 (drop 76 raw) ≡ some nonce
    → length prev ≡ 32
    → length root ≡ 32
    → decode_block_header raw
      ≡ some (record {
        version = from_le (take 1 version);
        prev_block_hash = reverse prev;
        merkle_root = reverse root;
        time = from_le time;
        bits = from_le bits;
        nonce = from_le nonce;
      })
unfolding decode_block_header
decode_pieces raw version prev root time bits nonce e1 e2 e3 e4 e5 e6 hp hr =
    let rp : reverse_string prev 32 ≡ some (reverse prev) =
      reverse_string_whole 32 prev hp (omega arith) (omega arith) in
    let rr : reverse_string root 32 ≡ some (reverse root) =
      reverse_string_whole 32 root hr (omega arith) (omega arith) in
    rw (e1, e2, rp, e3, rr, e4, e5, e6) refl

-- `decode_block_header` reads every field of a header in Bitcoin's layout, the two hashes
-- reversed; of the version it keeps the lowest byte only.
pub decode_block_header-header_bytes :
    (h : RawHeader) (rest : Bytes)
    → IsHeader h
    → decode_block_header (header_bytes h rest)
      ≡ some (record {
        version = h.version % 256;
        prev_block_hash = reverse h.prev;
        merkle_root = reverse h.root;
        time = h.time;
        bits = h.bits;
        nonce = h.nonce;
      })
unfolding decode_block_header header_bytes
decode_block_header-header_bytes h rest w =
    decode_pieces (header_bytes h rest) (to_le 4 h.version) h.prev h.root (to_le 4 h.time)
      (to_le 4 h.bits) (to_le 4 h.nonce) (copy-append 4 (to_le 4 h.version) _ refl)
      (copy-append 32 h.prev _ w.prev_size)
      (behind 32 0 32 h.prev _ w.prev_size (copy-append 32 h.root _ w.root_size))
      (past_hashes 0 (copy-append 4 (to_le 4 h.time) _ refl))
      (past_hashes 4 (copy-append 4 (to_le 4 h.bits) _ refl))
      (past_hashes 8 (copy-append 4 (to_le 4 h.nonce) _ refl)) w.prev_size w.root_size
    ∙ ground arith
  where
    tail : Bytes
    tail = to_le 4 h.time ++ (to_le 4 h.bits ++ (to_le 4 h.nonce ++ rest))

    past_hashes :
        (k : ℕ) {field : Bytes}
        → copy 4 (drop k tail) ≡ some field
        → copy 4 (drop (32 + (32 + k)) (h.prev ++ (h.root ++ tail))) ≡ some field
    past_hashes k e =
        behind 32 (32 + k) 4 h.prev _ w.prev_size (behind 32 k 4 h.root _ w.root_size e)

-- With 80 bytes or more the decoder ends, and with fewer it leaves the buffer.
decode_block_header_cases :
    (raw : Bytes)
    → (80 ≤ length raw → (h : BlockHeader) × (decode_block_header raw ≡ some h))
      × (length raw < 80 → decode_block_header raw ≡ none)
unfolding decode_block_header
decode_block_header_cases raw = (
  λ enough. (
    _,
    decode_pieces raw (take 4 raw) (take 32 (drop 4 raw)) (take 32 (drop 36 raw))
        (take 4 (drop 68 raw)) (take 4 (drop 72 raw)) (take 4 (drop 76 raw))
        (piece 0 4 enough (omega arith)) (piece 4 32 enough (omega arith))
        (piece 36 32 enough (omega arith)) (piece 68 4 enough (omega arith))
        (piece 72 4 enough (omega arith)) (piece 76 4 enough (omega arith))
        (omega (arith, length-take 32 (drop 4 raw), length-drop 4 raw))
        (omega (arith, length-take 32 (drop 36 raw), length-drop 36 raw)),
  ),
  λ short.
      let e : copy 4 (drop 76 raw) ≡ none =
        copy_of_lt 4 (drop 76 raw) (omega (arith, length-drop 76 raw)) in
      >>=-none (copy 4 raw) _ λ version. >>=-none (copy 32 (drop 4 raw)) _ λ prev.
        >>=-none (reverse_string prev 32) _ λ prev'. >>=-none (copy 32 (drop 36 raw)) _ λ root.
          >>=-none (reverse_string root 32) _ λ root'.
            >>=-none (copy 4 (drop 68 raw)) _
              λ time. >>=-none (copy 4 (drop 72 raw)) _ λ bits. none->>= (copy 4 (drop 76 raw)) _ e,
)
  where
    piece :
        (k n : ℕ) → 80 ≤ length raw → k + n ≤ 80 → copy n (drop k raw) ≡ some (take n (drop k raw))
    piece k n h le = copy_of_le n (drop k raw) (omega (arith, length-drop k raw))

-- `decode_block_header` reads behind the bytes it is given exactly if they are fewer than 80; with
-- 80 or more it ends.
pub decode_block_header_total : (raw : Bytes) → (decode_block_header raw ≡ none) ↔ (length raw < 80)
decode_block_header_total raw = (
  λ failed. elim (Bool-cases (ltb (length raw) 80)) [
    | inl short ↦ ground arith
    | inr long ↦
        let (h, ended) = (decode_block_header_cases raw).0 (ground arith) in
        absurd (none_is_not_some h (sym failed ∙ ended))
  ],
  (decode_block_header_cases raw).1,
)
  where
    none_is_not_some : (h : BlockHeader) → ◌≡◌ {A = Option BlockHeader} none (some h) → ⊥
    none_is_not_some h e = cc
