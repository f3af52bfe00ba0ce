-- ===== src/Pairing/Parse.antt =====
-- What `parseMessage` leaves in the block that it parses into.
use contiki_device_link.Common.{
  ℕ, ◌+◌, ◌≤◌, ◌≡◌, inl, inr, ◌≢◌, ◌⊎◌, zero, suc, get_elem?, [], ◌∷◌, ◌++◌, refl, sym, ap, subst,
  List, Option, none, some, ◌==◌, length, drop, arith, Bool-cases, Option-cases,
}
use mathlib.Core.Option.{some-injective}
use contiki_device_link.Cmp.{Codec}
use contiki_device_link.Sensor.{JoinPair}
use contiki_device_link.Registry.{str_above, str_below, str_change}
use contiki_device_link.Pairing.{
  with_url, c_string, ParseResult, parse_source, parse_triggers, parse_destination, parse_message,
  cp_decode_s8_array, cp_decode_u16_array,
}

-- `text` is the C string at the start of the bytes: it holds no NUL, and the bytes end behind it or go on with one.
pub record IsTextOf (bytes text : List ℕ) : Type 0 where
  pub no_nul : (i : ℕ) → get_elem? text i ≢ some 0
  pub behind : List ℕ
  pub starts : bytes ≡ text ++ behind
  pub ends : (behind ≡ []) ⊎ (get_elem? behind 0 ≡ some 0)

-- The URL of a notification, in a block that was parsed into: the one that the block held before, or else the
-- destination's with the suffix.
pub record HasUrl (before : Option (List ℕ)) (dst suffix : List ℕ) (after : Option (List ℕ))
    : Type 0 where
  pub kept : (u : List ℕ) → before ≡ some u → after ≡ some u
  pub made : before ≡ none → (text : List ℕ) × (after ≡ some (text ++ suffix)) × IsTextOf dst text

-- the URLs "/above", "/below" and "/change" of a block, `old` being its content before
pub record IsParsed (old p : JoinPair) : Type 0 where
  pub above : HasUrl old.dsturl_above p.dsturl (47 ∷ 97 ∷ 98 ∷ 111 ∷ 118 ∷ 101 ∷ []) p.dsturl_above
  pub below : HasUrl old.dsturl_below p.dsturl (47 ∷ 98 ∷ 101 ∷ 108 ∷ 111 ∷ 119 ∷ []) p.dsturl_below
  pub change :
      HasUrl old.dsturl_change p.dsturl (47 ∷ 99 ∷ 104 ∷ 97 ∷ 110 ∷ 103 ∷ 101 ∷ []) p.dsturl_change

nul_nowhere :
    (x : ℕ) (text : List ℕ)
    → x ≢ 0
    → ((i : ℕ) → get_elem? text i ≢ some 0)
    → (i : ℕ) → get_elem? (x ∷ text) i ≢ some 0
nul_nowhere x text nonzero later zero = λ e. nonzero (some-injective x 0 e)
nul_nowhere x text nonzero later (suc i) = later i

c_string-IsTextOf : (bytes : List ℕ) → IsTextOf bytes (c_string bytes)
unfolding c_string
c_string-IsTextOf [] = record { no_nul = λ i e. cc e; behind = []; starts = refl; ends = inl refl }
c_string-IsTextOf (x ∷ xs) = elim (Bool-cases (x == 0)) [
  | inl nul ↦
      rw (nul, c_string)
        (record {
          no_nul = λ i e. cc e;
          behind = x ∷ xs;
          starts = refl;
          ends = inr (ap some (ground (arith, nul)));
        })
  | inr other ↦
      let rest = c_string-IsTextOf xs in
      rw (other, c_string)
        (record {
          no_nul = nul_nowhere x (c_string xs) (ground (arith, other)) rest.no_nul;
          behind = rest.behind;
          starts = ap (λ l. x ∷ l) rest.starts;
          ends = rest.ends;
        })
]

with_url-HasUrl :
    (before : Option (List ℕ)) (dst suffix : List ℕ)
    → HasUrl before dst suffix (with_url before dst suffix)
unfolding with_url
with_url-HasUrl none dst suffix = record {
  kept = λ u e. cc e;
  made = λ e. (c_string dst, refl, c_string-IsTextOf dst);
}
with_url-HasUrl (some v) dst suffix = record { kept = λ u e. e; made = λ e. absurd (cc e) }

module _ {M : Type 0} (codec : Codec) (mmem_alloc : M → ℕ → Option M) where
  -- the outcome of a stage, if it succeeds, has these URLs
  abbrev Parses : JoinPair → Option (ParseResult M) → Type 0
  Parses old none = Unit
  Parses old (some r) = (r.ret ≤ 5) × (r.ret ≡ 0 → IsParsed old r.pair)

  parse_source-Parses :
      (old pair : JoinPair) (mmem : M) (payload : List ℕ)
      → IsParsed old pair
      → Parses old (parse_source codec mmem_alloc pair mmem payload)
  unfolding parse_source
  parse_source-Parses old pair mmem payload v = ground (arith, v)

  -- a block with the URLs of `old`
  record HasUrls (old pair : JoinPair) : Type 0 where
    has_above : pair.dsturl_above ≡ old.dsturl_above
    has_below : pair.dsturl_below ≡ old.dsturl_below
    has_change : pair.dsturl_change ≡ old.dsturl_change

  parse_triggers-Parses :
      (old pair : JoinPair) (mmem : M) (dst payload : List ℕ)
      → HasUrls old pair
      → pair.dsturl ≡ dst
      → Parses old (parse_triggers codec mmem_alloc pair mmem dst payload)
  unfolding parse_triggers
  parse_triggers-Parses old pair mmem dst payload v named =
      elim (Option-cases (cp_decode_s8_array codec 3 payload)) [
        | inl e ↦ rw (e, parse_triggers) tt
        | inr (t, e) ↦
            rw (e, parse_triggers)
              (elim (Bool-cases (t.ret == 0)) [
                | inl ok ↦ rw ok (
                    parse_source-Parses old _ mmem (drop t.used payload) (record {
                      above =
                          subst
                            (λ u.
                              HasUrl u pair.dsturl str_above
                                (with_url pair.dsturl_above dst str_above))
                            v.has_above
                            (subst
                              (λ d.
                                HasUrl pair.dsturl_above d str_above
                                  (with_url pair.dsturl_above dst str_above))
                              (sym named) (with_url-HasUrl pair.dsturl_above dst str_above));
                      below =
                          subst
                            (λ u.
                              HasUrl u pair.dsturl str_below
                                (with_url pair.dsturl_below dst str_below))
                            v.has_below
                            (subst
                              (λ d.
                                HasUrl pair.dsturl_below d str_below
                                  (with_url pair.dsturl_below dst str_below))
                              (sym named) (with_url-HasUrl pair.dsturl_below dst str_below));
                      change =
                          subst
                            (λ u.
                              HasUrl u pair.dsturl str_change
                                (with_url pair.dsturl_change dst str_change))
                            v.has_change
                            (subst
                              (λ d.
                                HasUrl pair.dsturl_change d str_change
                                  (with_url pair.dsturl_change dst str_change))
                              (sym named) (with_url-HasUrl pair.dsturl_change dst str_change));
                    }))
                | inr bad ↦ rw bad (omega arith, (λ z. absurd (omega (arith, z))))
              ])
      ]

  parse_destination-Parses :
      (old pair : JoinPair) (mmem : M) (payload : List ℕ)
      → HasUrls old pair
      → Parses old (parse_destination codec mmem_alloc pair mmem payload)
  unfolding parse_destination
  parse_destination-Parses old pair mmem payload v =
      let dst = codec.read_str 100 payload in
      elim (Option-cases dst.value) [
        | inl e ↦ rw (e, parse_destination) (omega arith, (λ z. absurd (omega (arith, z))))
        | inr (url, e) ↦
            rw (e, parse_destination)
              (elim (Option-cases (mmem_alloc mmem (length url + 1))) [
                | inl full ↦ rw full (omega arith, (λ z. absurd (omega (arith, z))))
                | inr (mmem', gives) ↦ rw gives (
                    parse_triggers-Parses old (record pair { dsturl = url }) mmem' url
                      (drop dst.used payload)
                      (record {
                        has_above = v.has_above;
                        has_below = v.has_below;
                        has_change = v.has_change;
                      })
                      refl)
              ])
      ]

  -- `parseMessage` returns a code up to 5. If it returns 0, each of the three URLs of notifications is the
  -- destination's, up to a NUL, with "/above", "/below" or "/change" behind it, in a block that had no such
  -- URL; but a block that had one, which a pair that was refused has left there, keeps it, whatever
  -- the destination is.
  pub parse_message-IsParsed :
      (old : JoinPair) (mmem : M) (payload : List ℕ) (r : ParseResult M)
      → parse_message codec mmem_alloc old mmem payload ≡ some r
      → (r.ret ≤ 5) × (r.ret ≡ 0 → IsParsed old r.pair)
  unfolding parse_message
  parse_message-IsParsed old mmem payload r parsed =
      subst (Parses old) parsed (elim (Option-cases (cp_decode_u16_array codec 8 payload)) [
        | inl e ↦ rw (e, parse_message) tt
        | inr (t, e) ↦
            rw (e, parse_message)
              (elim (Bool-cases (t.ret == 0)) [
                | inl ok ↦ rw ok (
                    parse_destination-Parses old _ mmem (drop t.used payload)
                      (record { has_above = refl; has_below = refl; has_change = refl }))
                | inr bad ↦ rw bad (omega arith, (λ z. absurd (omega (arith, z))))
              ])
      ])
