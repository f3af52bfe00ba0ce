-- ===== src/Coap/Text.antt =====
-- sensorsUnleashed/lib/cmp_helpers.c, `cp_cmp_to_string` and `cp_convMsgPackToString`: a value as text. `sprintf`
-- writes at a place in a buffer; how it prints a float is a parameter.
use contiki_device_link.Common.{
  ℕ, zero, suc, ◌+◌, ◌-◌, ◌/◌, ◌%◌, ◌^◌, ◌||◌, List, [], ◌∷◌, ◌++◌, Option, none, some,
  if◌then◌else◌, ◌==◌, ltb, leb, length, take, drop,
}
use contiki_device_link.Cmp.{CmpObject, Codec, get_as}

-- `conv` and `len`: what was written at the buffer's start, and how much of it is text
pub record Text : Type 0 where
  pub buffer : List ℕ
  pub len : ℕ

-- the decimal digits of a number, which has `room` digits at most, before `rest`
unfoldable pub digits : ℕ → ℕ → List ℕ → List ℕ
digits zero n rest = rest
digits (suc room) n rest =
    let all = digits room (n / 10) ((48 + n % 10) ∷ rest) in
    if ltb n 10 then (48 + n) ∷ rest else all

-- "%u": 20 digits are enough for 64 bits
unfoldable pub print_unsigned : ℕ → List ℕ
print_unsigned n = digits 20 n []

-- "%d" of a number in two's complement with `bits` bits
unfoldable pub print_signed : ℕ → ℕ → List ℕ
print_signed bits n =
    if ltb n (2 ^ (bits - 1)) then print_unsigned n else 45 ∷ print_unsigned (2 ^ bits - n)

-- `*len += sprintf(buffer + len, …)`; `printed` writes without counting. The NUL, which no length counts, is left
-- out. `result` is always the place `buffer + *len`, as the callers pass it.
unfoldable pub printed : Text → List ℕ → List ℕ
printed t s = take t.len t.buffer ++ (s ++ drop (t.len + length s) t.buffer)

unfoldable pub append_text : Text → List ℕ → Text
append_text t s = record { buffer = printed t s; len = t.len + length s }

-- the text of a value, by its type: `none` for a type without one
unfoldable pub value_text : (CmpObject → List ℕ) → CmpObject → Option (List ℕ)
value_text print_float o =
    if o.type == 0 || (o.type == 4 || o.type == 14)
    then some (print_unsigned (get_as 256 o))
    else (if o.type == 5
        then some (print_unsigned (get_as 256 o))
        else (if o.type == 12 || o.type == 13
            then some (print_float o)
            else (if o.type == 15
                then some (print_unsigned (get_as 65536 o))
                else (if o.type == 16
                    then some (print_unsigned (get_as (2 ^ 32) o))
                    else (if o.type == 17
                        then some (print_unsigned (get_as (2 ^ 64) o))
                        else (if o.type == 18 || o.type == 34
                            then some (print_signed 8 (get_as 256 o))
                            else (if o.type == 19
                                then some (print_signed 16 (get_as 65536 o))
                                else (if o.type == 20
                                    then some (print_signed 32 (get_as (2 ^ 32) o))
                                    else (if o.type == 21
                                        then some (print_signed 64 (get_as (2 ^ 64) o))
                                        else none)))))))))

abbrev pub type_sint32 : ℕ
type_sint32 = 20

-- `cp_cmp_to_string`: what is returned, and the text. For SINT32 the length is set, not counted up; a type that is
-- no case of the `switch` returns 0 and writes nothing.
unfoldable pub cp_cmp_to_string : (CmpObject → List ℕ) → CmpObject → Text → ℕ × Text
cp_cmp_to_string print_float o t = elim (value_text print_float o) [
  | none ↦ ((if leb o.type 34 then 1 else 0), t)
  | some s ↦ (
    0,
    (if o.type == type_sint32
        then record { buffer = printed t s; len = length s }
        else append_text t s),
  )
]

-- `cp_convMsgPackToString`
unfoldable pub cp_conv_msg_pack_to_string : Codec → (CmpObject → List ℕ) → List ℕ → Text → ℕ × Text
cp_conv_msg_pack_to_string codec print_float bytes t =
    let r = codec.read_object bytes in
    elim (r.value) [ none ↦ (1, t) | some o ↦ cp_cmp_to_string print_float o t ]
