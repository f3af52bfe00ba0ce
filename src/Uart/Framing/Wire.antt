-- ===== src/Uart/Framing/Wire.antt =====
-- The wire of uarthandler.c as lists of bytes: what stuffing writes, and what is stored of it.
use contiki_device_link.Common.{
  ℕ, suc, ◌*◌, ◌≤◌, ◌≡◌, ◌≢◌, refl, ap, ◌&&◌, List, [], ◌∷◌, ◌++◌, arith, if◌then◌else◌, ◌==◌,
  length, ◌∙◌,
}
use contiki_device_link.Uart.{end_byte, esc, esc_end, esc_esc, stuff, stuff_all}

-- The byte that the receiver stores for `c` after `last`, if `c` is not END.
abbrev pub unescape : ℕ → ℕ → ℕ
unescape last c =
    if (c == esc_esc) && (last == esc)
    then last
    else (if (c == esc_end) && (last == esc) then end_byte else c)

-- what a run of bytes stores, and the `last_c` that it leaves
abbrev pub stored : ℕ → List ℕ → List ℕ
stored last [] = []
stored last (c ∷ cs) = unescape last c ∷ stored c cs

abbrev pub last_after : ℕ → List ℕ → ℕ
last_after last [] = last
last_after last (c ∷ cs) = last_after c cs

abbrev pub NoEnd : List ℕ → Type 0
NoEnd [] = Unit
NoEnd (c ∷ cs) = (c ≢ end_byte) × NoEnd cs

-- No byte of the list is one that the framing escapes.
abbrev pub IsPlain : List ℕ → Type 0
IsPlain [] = Unit
IsPlain (c ∷ cs) = (c ≢ end_byte) × (c ≢ esc) × IsPlain cs

-- What arrives of a message: END and ESC come with the ESC that escaped them.
abbrev pub escaped_byte : ℕ → List ℕ
escaped_byte c =
    if c == end_byte then esc ∷ end_byte ∷ [] else (if c == esc then esc ∷ esc ∷ [] else c ∷ [])

unfoldable pub escaped : List ℕ → List ℕ
escaped [] = []
escaped (c ∷ cs) = escaped_byte c ++ escaped cs

pub stored-append :
    (last : ℕ) (xs ys : List ℕ)
    → stored last (xs ++ ys) ≡ stored last xs ++ stored (last_after last xs) ys
stored-append last [] ys = refl
stored-append last (x ∷ xs) ys = ap (λ t. unescape last x ∷ t) (stored-append x xs ys)

last_after-append :
    (last : ℕ) (xs ys : List ℕ) → last_after last (xs ++ ys) ≡ last_after (last_after last xs) ys
last_after-append last [] ys = refl
last_after-append last (x ∷ xs) ys = last_after-append x xs ys

NoEnd-append : (xs ys : List ℕ) → NoEnd xs → NoEnd ys → NoEnd (xs ++ ys)
NoEnd-append [] ys h k = k
NoEnd-append (x ∷ xs) ys h k = (h.0, NoEnd-append xs ys h.1 k)

pub length-stored : (last : ℕ) (cs : List ℕ) → length (stored last cs) ≡ length cs
length-stored last [] = refl
length-stored last (c ∷ cs) = ap suc (length-stored c cs)

stuff-NoEnd : (c : ℕ) → NoEnd (stuff c)
unfolding stuff
stuff-NoEnd c = ground arith

-- Stuffing leaves no END byte in the body of a frame, so a frame ends only where it should.
pub stuff_all-NoEnd : (cs : List ℕ) → NoEnd (stuff_all cs)
unfolding stuff_all
stuff_all-NoEnd [] = tt
stuff_all-NoEnd (c ∷ cs) =
    NoEnd-append (stuff c) (stuff_all cs) (stuff-NoEnd c) (stuff_all-NoEnd cs)

-- A stuffed byte leaves a last byte that is not ESC, and stores its escaped form.
stored-stuff :
    (last c : ℕ)
    → last ≢ esc
    → (stored last (stuff c) ≡ escaped_byte c) × (last_after last (stuff c) ≢ esc)
unfolding stuff
stored-stuff last c h = ground arith

pub stored-stuff_all :
    (last : ℕ) (cs : List ℕ) → last ≢ esc → stored last (stuff_all cs) ≡ escaped cs
unfolding stuff_all escaped
stored-stuff_all last [] h = refl
stored-stuff_all last (c ∷ cs) h =
    let (now, after) = stored-stuff last c h in
    stored-append last (stuff c) (stuff_all cs)
    ∙ (ap (λ t. t ++ stored (last_after last (stuff c)) (stuff_all cs)) now
        ∙ ap (λ t. escaped_byte c ++ t) (stored-stuff_all (last_after last (stuff c)) cs after))

-- A message with no END and no ESC arrives as it is.
pub escaped_plain : (cs : List ℕ) → IsPlain cs → escaped cs ≡ cs
unfolding escaped
escaped_plain [] h = refl
escaped_plain (c ∷ cs) h = ground (arith, escaped_plain cs h.2)

pub length-escaped : (cs : List ℕ) → length cs ≤ length (escaped cs)
unfolding escaped
length-escaped [] = omega arith
length-escaped (c ∷ cs) = ground (arith, length-escaped cs)

-- The other way round: what arrives unchanged had nothing to escape.
pub IsPlain-of_escaped : (cs : List ℕ) → length (escaped cs) ≡ length cs → IsPlain cs
unfolding escaped
IsPlain-of_escaped [] h = tt
IsPlain-of_escaped (c ∷ cs) h = ground (arith, length-escaped cs, IsPlain-of_escaped cs)

pub length-stuff_all : (cs : List ℕ) → length (stuff_all cs) ≤ 2 * length cs
unfolding stuff_all stuff
length-stuff_all [] = omega arith
length-stuff_all (c ∷ cs) = ground (arith, length-stuff_all cs)

pub length-stuff_all-escaped : (cs : List ℕ) → length (stuff_all cs) ≡ length (escaped cs)
unfolding stuff_all stuff escaped
length-stuff_all-escaped [] = refl
length-stuff_all-escaped (c ∷ cs) = ground (arith, length-stuff_all-escaped cs)
