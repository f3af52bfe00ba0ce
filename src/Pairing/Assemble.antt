-- ===== src/Pairing/Assemble.antt =====
-- The assembly of a pairing message from its parts.
use contiki_device_link.Common.{
  take-append, ℕ, ◌+◌, ◌≤◌, ◌<◌, ◌≡◌, refl, sym, ap, ◌∙◌, List, [], ◌∷◌, ◌++◌, Option, none, some,
  if◌then◌else◌, ◌==◌, length, take, drop, replicate, arith, length-append, length-take,
  length-drop, length-replicate, append_assoc, append-nil, subst,
}
use contiki_device_link.Uart.Proxy.{copy_to}
use contiki_device_link.Pairing.{buffersize, Assembly, cleared, pairing_assemble_message}

-- the parts from number `num` on, one after the other: `none` if one is refused
unfoldable pub assemble : Assembly → List (List ℕ) → ℕ → Option Assembly
assemble a [] num = some a
assemble a (part ∷ parts) num = elim (pairing_assemble_message a part num) [
  | none ↦ none
  | some (ret, b) ↦ if ret == 0 then assemble b parts (num + 1) else none
]

abbrev pub joined : List (List ℕ) → List ℕ
joined [] = []
joined (part ∷ parts) = part ++ joined parts

-- The buffer has its size, and holds `bytes` up to `bufsize`.
pub record IsAssembled (a : Assembly) (bytes : List ℕ) : Type 0 where
  pub size : length a.buffer ≡ buffersize
  pub counted : a.bufsize ≡ length bytes
  pub held : take a.bufsize a.buffer ≡ bytes

abbrev extended : Assembly → List ℕ → Assembly
extended a part = record {
  buffer = take a.bufsize a.buffer ++ (part ++ drop (a.bufsize + length part) a.buffer);
  bufsize = a.bufsize + length part;
}

-- One part: stored behind the ones before it, or refused with 1 if the buffer has no room for it.
pub pairing_assemble_message-IsAssembled :
    (a : Assembly) (bytes part : List ℕ) (num : ℕ)
    → IsAssembled a bytes
    → 0 < num
    → (length bytes + length part ≤ buffersize
        → (b : Assembly) × (pairing_assemble_message a part num ≡ some (0, b))
          × IsAssembled b (bytes ++ part))
      × (buffersize < length bytes + length part
          → pairing_assemble_message a part num ≡ some (1, a))
unfolding pairing_assemble_message cleared copy_to
pairing_assemble_message-IsAssembled a bytes part num v later = (
  (λ fits.
      (extended a part, ground (arith, v.size, v.counted, fits, later), extended-IsAssembled fits)),
  (λ over. ground (arith, v.size, v.counted, over, later)),
)
  where
    extended-IsAssembled :
        length bytes + length part ≤ buffersize → IsAssembled (extended a part) (bytes ++ part)
    extended-IsAssembled fits = record {
      size =
          length-append (take a.bufsize a.buffer) (part ++ drop (a.bufsize + length part) a.buffer)
          ∙ omega (
            arith,
            length-append part (drop (a.bufsize + length part) a.buffer),
            length-take a.bufsize a.buffer,
            length-drop (a.bufsize + length part) a.buffer,
            v.size,
            v.counted,
            fits,
          );
      counted = omega (arith, v.counted, length-append bytes part);
      held =
          ap (λ l. take (a.bufsize + length part) l)
            (ap (λ l. l ++ (part ++ drop (a.bufsize + length part) a.buffer)) v.held
              ∙ sym (append_assoc bytes part (drop (a.bufsize + length part) a.buffer)))
          ∙ (ap (λ n. take n ((bytes ++ part) ++ drop (a.bufsize + length part) a.buffer))
                (omega (arith, v.counted, length-append bytes part))
              ∙ take-append (bytes ++ part) (drop (a.bufsize + length part) a.buffer));
    }

assemble_from :
    (parts : List (List ℕ)) (a : Assembly) (bytes : List ℕ) (num : ℕ)
    → IsAssembled a bytes
    → 0 < num
    → length bytes + length (joined parts) ≤ buffersize
    → (b : Assembly) × (assemble a parts num ≡ some b) × IsAssembled b (bytes ++ joined parts)
unfolding assemble
assemble_from [] a bytes num v later fits =
    (a, refl, subst (IsAssembled a) (sym (append-nil bytes)) v)
assemble_from (part ∷ parts) a bytes num v later fits =
    let (b, stored, w) =
      (pairing_assemble_message-IsAssembled a bytes part num v later).0
        (omega (arith, fits, length-append part (joined parts))) in
    let (c, rest, x) =
      assemble_from parts b (bytes ++ part) (num + 1) w (omega arith)
        (omega (arith, fits, length-append part (joined parts), length-append bytes part)) in
    (
      c,
      rw (stored, assemble) rest,
      subst (IsAssembled c) (append_assoc bytes part (joined parts)) x,
    )

abbrev empty : Assembly
empty = record { buffer = replicate buffersize 0; bufsize = 0 }

empty-IsAssembled : IsAssembled empty []
empty-IsAssembled = record {
  size = length-replicate {A = ℕ} buffersize 0;
  counted = refl;
  held = refl;
}

first_clears :
    (a : Assembly) (part : List ℕ)
    → pairing_assemble_message a part 0 ≡ pairing_assemble_message empty part 1
unfolding pairing_assemble_message cleared
first_clears a part = refl

-- The parts of a message, numbered from 0, are assembled whatever was in the buffer before: if they
-- fit it together, none is refused, and the buffer holds them joined.
pub assemble-IsAssembled :
    (a : Assembly) (part : List ℕ) (parts : List (List ℕ))
    → length (joined (part ∷ parts)) ≤ buffersize
    → (b : Assembly) × (assemble a (part ∷ parts) 0 ≡ some b)
      × IsAssembled b (joined (part ∷ parts))
unfolding assemble
assemble-IsAssembled a part parts fits =
    let (b, stored, w) =
      (pairing_assemble_message-IsAssembled empty [] part 1 empty-IsAssembled (omega arith)).0
        (omega (arith, fits, length-append part (joined parts))) in
    let (c, rest, x) =
      assemble_from parts b part 1 w (omega arith)
        (omega (arith, fits, length-append part (joined parts))) in
    (c, rw (first_clears a part ∙ stored, assemble) rest, x)
