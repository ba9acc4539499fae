-- ===== src/Tcp/Widths.antt =====
-- The header that src/protocols/ip/tcp.rs reads from the bytes of a segment.
use rust_user_net.Base.{
  le→leb, ℕ, zero, suc, ◌+◌, ◌*◌, ◌/◌, ◌%◌, ◌^◌, ◌<◌, ◌≤◌, ◌≡◌, ◌∙◌, refl, sym, ap, List, [], ◌∷◌,
  ◌++◌, All, done, arith, length, drop,
}
use rust_user_net.Utils.Byte.{bytes_u16, bytes_u32, of_bytes_u16, of_bytes_u32}
use rust_user_net.Utils.Cksum.Sum.{IsByte}
use rust_user_net.Device.Ethernet.{byte_at}
use rust_user_net.Tcp.Types.{TcpHeader, header_bytes}
use rust_user_net.Tcp.Arrives.{bytes_to_header}

-- The fields are numbers of their types in the source.
pub record HasWidths (h : TcpHeader) : Type 0 where
  pub src_port_u16 : h.src_port < 2 ^ 16
  pub dst_port_u16 : h.dst_port < 2 ^ 16
  pub seq_num_u32 : h.seq_num < 2 ^ 32
  pub ack_num_u32 : h.ack_num < 2 ^ 32
  pub offset_u8 : h.offset < 2 ^ 8
  pub flags_u8 : h.flags < 2 ^ 8
  pub window_u16 : h.window < 2 ^ 16
  pub sum_u16 : h.sum < 2 ^ 16
  pub urg_ptr_u16 : h.urg_ptr < 2 ^ 16

drop-byte_at : (i : ℕ) (xs : List ℕ) → i < length xs → drop i xs ≡ byte_at xs i ∷ drop (suc i) xs
drop-byte_at i [] h = absurd (omega arith)
drop-byte_at zero (x ∷ xs) h = refl
drop-byte_at (suc i) (x ∷ xs) h = drop-byte_at i xs (omega arith)

byte_at-IsByte : (i : ℕ) (xs : List ℕ) → All IsByte xs → IsByte (byte_at xs i)
byte_at-IsByte i [] h = omega arith
byte_at-IsByte zero (x ∷ xs) h = h.0
byte_at-IsByte (suc i) (x ∷ xs) h = byte_at-IsByte i xs h.1

bytes_u16-of_bytes : (a b : ℕ) → IsByte a → IsByte b → bytes_u16 (of_bytes_u16 a b) ≡ a ∷ b ∷ []
bytes_u16-of_bytes a b ha hb =
    let low : (a + 256 * b) % 256 ≡ a = omega arith in
    let high : (a + 256 * b) / 256 % 256 ≡ b = omega arith in rw (low, high) refl

bytes_u32-of_bytes :
    (a b c d : ℕ)
    → IsByte a
    → IsByte b
    → IsByte c
    → IsByte d
    → bytes_u32 (of_bytes_u32 a b c d) ≡ a ∷ b ∷ c ∷ d ∷ []
bytes_u32-of_bytes a b c d ha hb hc hd =
    let v = a + 256 * b + 65536 * c + 16777216 * d in
    let first : v % 256 ≡ a = omega arith in
    let second : v / 256 % 256 ≡ b = omega arith in
    let third : v / 65536 % 256 ≡ c = omega arith in
    let fourth : v / 16777216 % 256 ≡ d = omega arith in rw (first, second, third, fourth) refl

module _ (bytes : List ℕ) (all : All IsByte bytes) (long : 20 ≤ length bytes) where
  at_u8 : (i : ℕ) → i < 20 → byte_at bytes i ∷ drop (suc i) bytes ≡ drop i bytes
  at_u8 i h = sym (drop-byte_at i bytes (omega arith))

  at_u16 :
      (i : ℕ)
      → suc i < 20
      → bytes_u16 (of_bytes_u16 (byte_at bytes i) (byte_at bytes (suc i)))
          ++ drop (suc (suc i)) bytes
        ≡ drop i bytes
  at_u16 i h =
      ap (λ xs. xs ++ drop (suc (suc i)) bytes)
        (bytes_u16-of_bytes _ _ (byte_at-IsByte i bytes all) (byte_at-IsByte (suc i) bytes all))
      ∙ ap (◌∷◌ (byte_at bytes i)) (at_u8 (suc i) h)
      ∙ at_u8 i (omega arith)

  at_u32 :
      (i : ℕ)
      → suc (suc (suc i)) < 20
      → bytes_u32 (
            of_bytes_u32
              (byte_at bytes i)
              (byte_at bytes (suc i))
              (byte_at bytes (suc (suc i)))
              (byte_at bytes (suc (suc (suc i)))))
          ++ drop (suc (suc (suc (suc i)))) bytes
        ≡ drop i bytes
  at_u32 i h =
      ap (λ xs. xs ++ drop (suc (suc (suc (suc i)))) bytes)
        (bytes_u32-of_bytes _ _ _ _ (byte_at-IsByte i bytes all) (byte_at-IsByte (suc i) bytes all)
          (byte_at-IsByte (suc (suc i)) bytes all) (byte_at-IsByte (suc (suc (suc i))) bytes all))
      ∙ ap (λ xs. byte_at bytes i ∷ byte_at bytes (suc i) ∷ byte_at bytes (suc (suc i)) ∷ xs)
          (at_u8 (suc (suc (suc i))) h)
      ∙ ap (λ xs. byte_at bytes i ∷ byte_at bytes (suc i) ∷ xs) (at_u8 (suc (suc i)) (omega arith))
      ∙ ap (◌∷◌ (byte_at bytes i)) (at_u8 (suc i) (omega arith))
      ∙ at_u8 i (omega arith)

  abbrev word : ℕ → List ℕ
  word i = bytes_u16 (of_bytes_u16 (byte_at bytes i) (byte_at bytes (suc i)))

  abbrev long_word : ℕ → List ℕ
  long_word i = bytes_u32 (
      of_bytes_u32 (byte_at bytes i) (byte_at bytes (suc i)) (byte_at bytes (suc (suc i)))
        (byte_at bytes (suc (suc (suc i)))))

  -- The window, the checksum and the urgent pointer, with what follows the header.
  last_words : word 14 ++ (word 16 ++ (word 18 ++ drop 20 bytes)) ≡ drop 14 bytes
  last_words =
      ap (λ xs. word 14 ++ (word 16 ++ xs)) (at_u16 18 (omega arith))
      ∙ ap (λ xs. word 14 ++ xs) (at_u16 16 (omega arith))
      ∙ at_u16 14 (omega arith)

  all_words :
      word 0
        ++ (word 2
            ++ (long_word 4
                ++ (long_word 8
                    ++ (byte_at bytes 12
                        ∷ byte_at bytes 13
                        ∷ (word 14 ++ (word 16 ++ (word 18 ++ drop 20 bytes)))))))
      ≡ bytes
  all_words =
      ap
        (λ xs.
          word 0
          ++ (word 2
              ++ (long_word 4 ++ (long_word 8 ++ (byte_at bytes 12 ∷ byte_at bytes 13 ∷ xs)))))
        last_words
      ∙ ap (λ xs. word 0 ++ (word 2 ++ (long_word 4 ++ (long_word 8 ++ (byte_at bytes 12 ∷ xs)))))
          (at_u8 13 (omega arith))
      ∙ ap (λ xs. word 0 ++ (word 2 ++ (long_word 4 ++ (long_word 8 ++ xs))))
          (at_u8 12 (omega arith))
      ∙ ap (λ xs. word 0 ++ (word 2 ++ (long_word 4 ++ xs))) (at_u32 8 (omega arith))
      ∙ ap (λ xs. word 0 ++ (word 2 ++ xs)) (at_u32 4 (omega arith))
      ∙ ap (λ xs. word 0 ++ xs) (at_u16 2 (omega arith))
      ∙ at_u16 0 (omega arith)

-- From 20 bytes or more a header is read whose fields have the widths of their types, and whose bytes
-- are those that were read: with what follows them they are the segment again.
pub bytes_to_header-HasWidths :
    (bytes : List ℕ)
    → All IsByte bytes
    → 20 ≤ length bytes
    → (h : TcpHeader) × (bytes_to_header bytes ≡ done h)
      × HasWidths h
      × (header_bytes h ++ drop 20 bytes ≡ bytes)
unfolding bytes_to_header
bytes_to_header-HasWidths bytes all long =
    let byte = λ (i : ℕ). byte_at-IsByte i bytes all in
    (
      record {
        src_port = of_bytes_u16 (byte_at bytes 0) (byte_at bytes 1);
        dst_port = of_bytes_u16 (byte_at bytes 2) (byte_at bytes 3);
        seq_num =
            of_bytes_u32 (byte_at bytes 4) (byte_at bytes 5) (byte_at bytes 6) (byte_at bytes 7);
        ack_num =
            of_bytes_u32 (byte_at bytes 8) (byte_at bytes 9) (byte_at bytes 10) (byte_at bytes 11);
        offset = byte_at bytes 12;
        flags = byte_at bytes 13;
        window = of_bytes_u16 (byte_at bytes 14) (byte_at bytes 15);
        sum = of_bytes_u16 (byte_at bytes 16) (byte_at bytes 17);
        urg_ptr = of_bytes_u16 (byte_at bytes 18) (byte_at bytes 19);
      },
      rw (le→leb 20 (length bytes) long) refl,
      record {
        src_port_u16 = omega (arith, byte 0, byte 1);
        dst_port_u16 = omega (arith, byte 2, byte 3);
        seq_num_u32 = omega (arith, byte 4, byte 5, byte 6, byte 7);
        ack_num_u32 = omega (arith, byte 8, byte 9, byte 10, byte 11);
        offset_u8 = byte 12;
        flags_u8 = byte 13;
        window_u16 = omega (arith, byte 14, byte 15);
        sum_u16 = omega (arith, byte 16, byte 17);
        urg_ptr_u16 = omega (arith, byte 18, byte 19);
      },
      all_words bytes all long,
    )
