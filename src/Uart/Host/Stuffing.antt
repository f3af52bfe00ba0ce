-- ===== src/Uart/Host/Stuffing.antt =====
-- UartTest/uart.cpp, `byteStuff`: the loop that stuffs a message in place, against the function of a byte that
-- uarthandler.c applies while it sends.
use contiki_device_link.Common.{
  ℕ, zero, suc, ◌+◌, ◌*◌, ◌<◌, ◌≡◌, ◌≢◌, refl, ap, ap₂, sym, ◌∙◌, List, [], ◌∷◌, ◌++◌, some, arith,
  ◌==◌, length, take, drop, get_or, append_assoc, append-nil, length-append, take-append,
  drop-append, Bool-cases, inl, inr,
}
use contiki_device_link.Uart.{end_byte, esc, esc_end, esc_esc, stuff, stuff_all, frameandsend}
use contiki_device_link.Uart.Host.{stuff_at, byte_stuff_loop, byte_stuff, transmit_frame}

get_or-append : (pre rest : List ℕ) (c : ℕ) → get_or (pre ++ c ∷ rest) (length pre) 0 ≡ c
get_or-append [] rest c = refl
get_or-append (p ∷ pre) rest c = get_or-append pre rest c

drop-append_suc : (pre rest : List ℕ) (c : ℕ) → drop (suc (length pre)) (pre ++ c ∷ rest) ≡ rest
drop-append_suc [] rest c = refl
drop-append_suc (p ∷ pre) rest c = drop-append_suc pre rest c

take-append_suc :
    (pre rest : List ℕ) (c : ℕ) → take (suc (length pre)) (pre ++ c ∷ rest) ≡ pre ++ c ∷ []
take-append_suc [] rest c = refl
take-append_suc (p ∷ pre) rest c = ap (λ l. p ∷ l) (take-append_suc pre rest c)

stuff_at-plain :
    (pre rest : List ℕ) (c : ℕ)
    → c ≢ end_byte
    → c ≢ esc
    → stuff_at (pre ++ c ∷ rest) (length pre) ≡ pre ++ c ∷ rest
unfolding stuff_at
stuff_at-plain pre rest c not_end not_esc = ground (arith, get_or-append pre rest c)

stuff_at-esc :
    (pre rest : List ℕ)
    → stuff_at (pre ++ esc ∷ rest) (length pre) ≡ (pre ++ esc ∷ []) ++ esc_esc ∷ rest
unfolding stuff_at
stuff_at-esc pre rest =
    rw (get_or-append pre rest esc)
      (rw (take-append_suc pre rest esc) (rw (drop-append_suc pre rest esc) refl))

stuff_at-end :
    (pre rest : List ℕ)
    → stuff_at (pre ++ end_byte ∷ rest) (length pre) ≡ pre ++ esc ∷ esc_end ∷ rest
unfolding stuff_at
stuff_at-end pre rest = rw (get_or-append pre rest end_byte) (
    rw (take-append pre (end_byte ∷ rest)) (
      rw (drop-append_suc pre rest end_byte) (
        rw (take-append pre rest) (
          rw (drop-append pre rest)
            (rw (take-append pre (esc_end ∷ rest)) (rw (drop-append pre (esc_end ∷ rest)) refl))))))

loop-step :
    (rounds : ℕ) (pre rest : List ℕ) (c : ℕ)
    → byte_stuff_loop (suc rounds) (pre ++ c ∷ rest) (length pre)
      ≡ byte_stuff_loop rounds (stuff_at (pre ++ c ∷ rest) (length pre)) (suc (length pre))
unfolding byte_stuff_loop
loop-step rounds pre rest c = ground (arith, length-append pre (c ∷ rest))

-- a byte that stays as it is
loop-plain :
    (rounds : ℕ) (pre rest : List ℕ) (c : ℕ)
    → c ≢ end_byte
    → c ≢ esc
    → byte_stuff_loop (suc rounds) (pre ++ c ∷ rest) (length pre)
      ≡ byte_stuff_loop rounds ((pre ++ c ∷ []) ++ rest) (length (pre ++ c ∷ []))
loop-plain rounds pre rest c not_end not_esc =
    loop-step rounds pre rest c
    ∙ ap₂ (byte_stuff_loop rounds)
        (stuff_at-plain pre rest c not_end not_esc ∙ sym (append_assoc pre (c ∷ []) rest))
        (omega (arith, length-append pre (c ∷ [])))

-- a byte that becomes two: the second one of them stays
loop-two :
    (rounds : ℕ) (pre rest : List ℕ) (c d : ℕ)
    → d ≢ end_byte
    → d ≢ esc
    → stuff_at (pre ++ c ∷ rest) (length pre) ≡ pre ++ esc ∷ d ∷ rest
    → byte_stuff_loop (suc (suc rounds)) (pre ++ c ∷ rest) (length pre)
      ≡ byte_stuff_loop rounds ((pre ++ esc ∷ d ∷ []) ++ rest) (length (pre ++ esc ∷ d ∷ []))
loop-two rounds pre rest c d not_end not_esc two =
    let first = sym (append_assoc pre (esc ∷ []) (d ∷ rest)) in
    let one : suc (length pre) ≡ length (pre ++ esc ∷ []) =
      omega (arith, length-append pre (esc ∷ [])) in
    let both = append_assoc pre (esc ∷ []) (d ∷ []) in
    loop-step (suc rounds) pre rest c
    ∙ (ap₂ (byte_stuff_loop (suc rounds)) (two ∙ first) one
        ∙ (loop-plain rounds (pre ++ esc ∷ []) rest d not_end not_esc
            ∙ ap (λ l. byte_stuff_loop rounds (l ++ rest) (length l)) both))

loop-end :
    (rounds : ℕ) (pre : List ℕ)
    → byte_stuff_loop (suc rounds) (pre ++ []) (length pre) ≡ some (pre ++ [])
unfolding byte_stuff_loop
loop-end rounds pre = rw (append-nil pre) (ground arith)

byte_stuff_loop-stuff_all :
    (rest pre : List ℕ) (rounds : ℕ)
    → 2 * length rest < rounds
    → byte_stuff_loop rounds (pre ++ rest) (length pre) ≡ some (pre ++ stuff_all rest)
unfolding stuff_all stuff
byte_stuff_loop-stuff_all rest pre zero enough = absurd (omega (arith, enough))
byte_stuff_loop-stuff_all [] pre (suc rounds) enough = loop-end rounds pre
byte_stuff_loop-stuff_all (c ∷ rest) pre (suc zero) enough = absurd (omega (arith, enough))
byte_stuff_loop-stuff_all (c ∷ rest) pre (suc (suc rounds)) enough =
    let go = λ (l : List ℕ) (n : ℕ) (more : 2 * length rest < n).
      byte_stuff_loop-stuff_all rest (pre ++ l) n more
      ∙ ap some (append_assoc pre l (stuff_all rest)) in
    elim (Bool-cases (c == end_byte)) [
      | inl e ↦
          let is_end : c ≡ end_byte = ground (arith, e) in
          rw e (
            loop-two rounds pre rest c esc_end (omega arith) (omega arith)
              (ap (λ b. stuff_at (pre ++ b ∷ rest) (length pre)) is_end ∙ stuff_at-end pre rest)
            ∙ go (esc ∷ esc_end ∷ []) rounds (omega (arith, enough)))
      | inr not_end ↦ elim (Bool-cases (c == esc)) [
        | inl e ↦
            let is_esc : c ≡ esc = ground (arith, e) in
            rw (not_end, e)
              (loop-two rounds pre rest c esc_esc (omega arith) (omega arith) (
                  ap (λ b. stuff_at (pre ++ b ∷ rest) (length pre)) is_esc
                  ∙ (stuff_at-esc pre rest ∙ append_assoc pre (esc ∷ []) (esc_esc ∷ rest)))
                ∙ go (esc ∷ esc_esc ∷ []) rounds (omega (arith, enough)))
        | inr not_esc ↦
            rw (not_end, not_esc)
              (loop-plain (suc rounds) pre rest c (ground (arith, not_end))
                  (ground (arith, not_esc))
                ∙ go (c ∷ []) (suc rounds) (omega (arith, enough)))
      ]
    ]

-- `byteStuff` and `transmit` of the test program end, and what is written is what `frameandsend` sends for the
-- same bytes.
pub transmit_frame-frameandsend :
    (txbuf : List ℕ) (len : ℕ) → transmit_frame txbuf len ≡ some (frameandsend txbuf len)
unfolding transmit_frame byte_stuff frameandsend
transmit_frame-frameandsend txbuf len =
    rw
      (
        byte_stuff_loop-stuff_all (take len txbuf) [] (2 * length (take len txbuf) + 1)
            (omega arith),
        transmit_frame,
      )
      refl
