-- ===== src/Scan/Address.antt =====
-- The text of a Bluetooth address: what `send_device` publishes names one address only.
use smart_door_lock.Base.{
  ℕ, ◌+◌, ◌-◌, ◌*◌, ◌/◌, ◌%◌, ◌<◌, ◌≡◌, refl, ap, sym, ◌∙◌, List, ◌∷◌, arith, ltb, length,
  if◌then◌else◌,
}
use smart_door_lock.Scan.{Addr, zero_addr, hex_digit, hex_byte, format_addr}

-- The six are bytes.
pub record IsBytes (a : Addr) : Type 0 where
  pub b0 : a.a0 < 256
  pub b1 : a.a1 < 256
  pub b2 : a.a2 < 256
  pub b3 : a.a3 < 256
  pub b4 : a.a4 < 256
  pub b5 : a.a5 < 256

-- The value of an upper-case hexadecimal digit.
abbrev pub unhex : ℕ → ℕ
unhex c = if ltb c b'A' then c - b'0' else c + 10 - b'A'

abbrev pub unhex_byte : ℕ → ℕ → ℕ
unhex_byte hi lo = unhex hi * 16 + unhex lo

-- The address that a text of 17 characters names.
pub parse_addr : List ℕ → Addr
parse_addr (h5 ∷ l5 ∷ _ ∷ h4 ∷ l4 ∷ _ ∷ h3 ∷ l3 ∷ _ ∷ h2 ∷ l2 ∷ _ ∷ h1 ∷ l1 ∷ _ ∷ h0 ∷ l0 ∷ _) =
    record {
      a0 = unhex_byte h0 l0;
      a1 = unhex_byte h1 l1;
      a2 = unhex_byte h2 l2;
      a3 = unhex_byte h3 l3;
      a4 = unhex_byte h4 l4;
      a5 = unhex_byte h5 l5;
    }
parse_addr _ = zero_addr

unhex-hex_digit : (d : ℕ) → d < 16 → unhex (hex_digit d) ≡ d
unfolding hex_digit
unhex-hex_digit d h = ground arith

unhex-hex_byte : (b : ℕ) → b < 256 → unhex_byte (hex_digit (b / 16)) (hex_digit (b % 16)) ≡ b
unhex-hex_byte b h =
    omega (arith, unhex-hex_digit (b / 16) (omega arith), unhex-hex_digit (b % 16) (omega arith))

-- The text of an address fits `buf[18]` with its NUL, and reads back as the address.
pub parse-format :
    (a : Addr) → IsBytes a → (length (format_addr a) ≡ 17) × (parse_addr (format_addr a) ≡ a)
unfolding parse_addr format_addr hex_byte
parse-format a v = (
  refl,
  λ i. record {
    a0 = unhex-hex_byte a.a0 v.b0 i;
    a1 = unhex-hex_byte a.a1 v.b1 i;
    a2 = unhex-hex_byte a.a2 v.b2 i;
    a3 = unhex-hex_byte a.a3 v.b3 i;
    a4 = unhex-hex_byte a.a4 v.b4 i;
    a5 = unhex-hex_byte a.a5 v.b5 i;
  },
)

pub format-injective : (a b : Addr) → IsBytes a → IsBytes b → format_addr a ≡ format_addr b → a ≡ b
format-injective a b va vb e = sym (parse-format a va).1 ∙ ap parse_addr e ∙ (parse-format b vb).1
