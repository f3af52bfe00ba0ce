-- ===== src/Registry/Missing/Detected.antt =====
-- What `nodedetected_callback` of susensors.c does with the pairs to a node that has been detected.
use contiki_device_link.Common.{
  ℕ, zero, suc, ◌+◌, ◌<◌, ◌≤◌, ◌≡◌, refl, ap, sym, ◌∙◌, Bool, true, false, List, [], ◌∷◌, none,
  some, ◌==◌, not, arith, length, Bool-cases, inl, inr, Option-cases, drop, subst, ◌↔◌,
}
use mathlib.Core.Option.{some-injective}
use contiki_device_link.Contiki.{PointerLists, without}
use contiki_device_link.Cmp.{Codec}
use contiki_device_link.Sensor.{JoinPair}
use contiki_device_link.ReverseNotify.{Address, same_address}
use contiki_device_link.Registry.Pair.{filter, notification_ok}
use contiki_device_link.Registry.Missing.{
  find_from_missing, call_missing, read_ip_words, Detection, detected, nodedetected_callback,
}

module _ (memory : ℕ → JoinPair) (a : Address) where
  -- a pair to the node
  abbrev pub to_node : ℕ → Bool
  to_node p = same_address (memory p).destip a

  record IsFirstOf (missing : List ℕ) (p : ℕ) : Type 0 where
    its_node : to_node p ≡ true
    posted_first : filter to_node missing ≡ p ∷ filter to_node (without missing p)
    left_same :
        filter (λ q. not (to_node q)) missing ≡ filter (λ q. not (to_node q)) (without missing p)
    shorter : length missing ≡ suc (length (without missing p))

  find_from_missing-IsFirstOf :
      (missing : List ℕ) (p : ℕ) → find_from_missing memory missing a ≡ some p → IsFirstOf missing p
  unfolding find_from_missing without
  find_from_missing-IsFirstOf [] p found = absurd (cc found)
  find_from_missing-IsFirstOf (q ∷ qs) p found = elim (Bool-cases (to_node q)) [
    | inl e ↦
        let same : q ≡ p = some-injective q p (rw (e, find_from_missing) at found) in
        let itself : (q == p) ≡ true = ground (arith, same) in
        record {
          its_node = subst (λ x. to_node x ≡ true) same e;
          posted_first = rw e (rw itself (ap (λ x. x ∷ filter to_node qs) same));
          left_same = rw e (rw itself refl);
          shorter = rw itself refl;
        }
    | inr e ↦
        let rest = find_from_missing-IsFirstOf qs p (rw (e, find_from_missing) at found) in
        let other : (q == p) ≡ false = elim (Bool-cases (q == p)) [
          | inl same ↦
              absurd
                (cc (sym e ∙ subst (λ x. to_node x ≡ true) (ground (arith, same)) rest.its_node))
          | inr other ↦ other
        ] in
        record {
          its_node = rest.its_node;
          posted_first = rw e (rw other (rw e rest.posted_first));
          left_same = rw e (rw other (rw e (ap (λ l. q ∷ l) rest.left_same)));
          shorter = rw other (ap suc rest.shorter);
        }
  ]

  find_from_missing-none :
      (missing : List ℕ)
      → find_from_missing memory missing a ≡ none
      → (filter to_node missing ≡ []) × (filter (λ q. not (to_node q)) missing ≡ missing)
  unfolding find_from_missing
  find_from_missing-none [] none_left = (refl, refl)
  find_from_missing-none (q ∷ qs) none_left = elim (Bool-cases (to_node q)) [
    | inl e ↦ absurd (cc (rw (e, find_from_missing) at none_left))
    | inr e ↦
        let (all, rest) = find_from_missing-none qs (rw (e, find_from_missing) at none_left) in
        (rw e all, rw e (ap (λ l. q ∷ l) rest))
  ]

  module _ (lists : PointerLists) where
    call_missing-filter :
        (rounds : ℕ) (missing : List ℕ)
        → length missing < rounds
        → call_missing lists memory rounds missing a
          ≡ some (filter to_node missing, filter (λ q. not (to_node q)) missing)
    unfolding call_missing
    call_missing-filter zero missing enough = absurd (omega (arith, enough))
    call_missing-filter (suc rounds) missing enough =
        elim (Option-cases (find_from_missing memory missing a)) [
          | inl none_left ↦
              let (all, rest) = find_from_missing-none missing none_left in
              rw (none_left, call_missing) (rw all (rw rest refl))
          | inr (p, found) ↦
              let first = find_from_missing-IsFirstOf missing p found in
              let next =
                call_missing-filter rounds (without missing p)
                  (omega (arith, first.shorter, enough)) in
              rw (found, call_missing)
                (rw (lists.remove_lem missing p)
                  (rw (next, call_missing) (rw first.posted_first (rw first.left_same refl))))
        ]

    abbrev left_pairs : List ℕ → List ℕ
    left_pairs missing = filter (λ q. not (to_node q)) missing

    detected-filter :
        (missing : List ℕ)
        → detected lists memory missing a
          ≡ some (record {
            posted = filter to_node missing;
            missing = left_pairs missing;
            removed = length (left_pairs missing) == 0;
          })
    unfolding detected
    detected-filter missing =
        rw (call_missing-filter (length missing + 1) missing (omega arith), detected) refl

read_ip_words-some :
    (codec : Codec) (size : ℕ) (stale buffer : List ℕ)
    → size ≤ length stale
    → (a : Address) × (read_ip_words codec size stale buffer ≡ some a)
unfolding read_ip_words
read_ip_words-some codec zero stale buffer few = (stale, refl)
read_ip_words-some codec (suc size) [] buffer few = absurd (omega (arith, few))
read_ip_words-some codec (suc size) (word ∷ stale) buffer few =
    let r = codec.read_u16 buffer in
    let (a, reads) =
      read_ip_words-some codec size stale (drop r.used buffer) (omega (arith, few)) in
    ((elim (r.value) [ none ↦ word | some v ↦ v ]) ∷ a, rw (reads, read_ip_words) refl)

-- A payload of the border router that is an array of eight words at most, for the eight words that the memory held
-- before, is read as an address: the pairs to that node are posted, in their order, and taken off the
-- list, the others stay, and the router is observed on exactly if some are left.
pub nodedetected_callback-filter :
    (lists : PointerLists) (codec : Codec) (memory : ℕ → JoinPair) (stale payload missing : List ℕ)
    (size : ℕ)
    → (codec.read_array payload).value ≡ some size
    → size ≤ 8
    → length stale ≡ 8
    → (a : Address) × (d : Detection) × (read_ip_words codec size stale
          (drop (codec.read_array payload).used payload)
        ≡ some a)
      × (nodedetected_callback lists codec memory stale notification_ok payload missing ≡ some d)
      × (d.posted ≡ filter (to_node memory a) missing)
      × (d.missing ≡ filter (λ q. not (to_node memory a q)) missing)
      × ((d.removed ≡ false) ↔ (0 < length d.missing))
unfolding nodedetected_callback
nodedetected_callback-filter lists codec memory stale payload missing size array few eight =
    let (a, words) =
      read_ip_words-some codec size stale (drop (codec.read_array payload).used payload)
        (omega (arith, few, eight)) in
    (
      a,
      record {
        posted = filter (to_node memory a) missing;
        missing = left_pairs memory a lists missing;
        removed = length (left_pairs memory a lists missing) == 0;
      },
      words,
      rw (array, nodedetected_callback) (rw words (detected-filter memory a lists missing)),
      refl,
      refl,
      ((λ kept. ground (arith, kept)), (λ some_left. ground (arith, some_left))),
    )
