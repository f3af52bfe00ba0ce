-- ===== src/Registry/Find.antt =====
-- Which device `susensors_find` gives for a URL.
use contiki_device_link.Common.{
  ℕ, zero, suc, ◌%◌, ◌<◌, ◌≡◌, ◌⊎◌, ◌↔◌, inl, inr, refl, sym, ap, ◌∙◌, true, List, [], ◌∷◌, ◌++◌,
  Option, none, some, if◌then◌else◌, ◌==◌, length, take, get_or, get_elem?, arith, Bool-cases,
  length-append, subst,
}
use mathlib.Core.Option.{some-injective}
use contiki_device_link.Common.Bits.{has_bit}
use contiki_device_link.Sensor.{Sensor}
use contiki_device_link.Registry.{
  strncmp_equal, su_url_len, compared, is_match, first_match, susensors_find,
}

strncmp_equal_iff :
    (n : ℕ) (xs ys : List ℕ) → (strncmp_equal n xs ys ≡ true) ↔ (take n xs ≡ take n ys)
unfolding strncmp_equal
strncmp_equal_iff zero [] [] = ((λ h. refl), (λ h. refl))
strncmp_equal_iff zero [] (y ∷ ys) = ((λ h. refl), (λ h. refl))
strncmp_equal_iff zero (x ∷ xs) [] = ((λ h. refl), (λ h. refl))
strncmp_equal_iff zero (x ∷ xs) (y ∷ ys) = ((λ h. refl), (λ h. refl))
strncmp_equal_iff (suc n) [] [] = ((λ h. refl), (λ h. refl))
strncmp_equal_iff (suc n) [] (y ∷ ys) = ((λ h. cc h), (λ h. cc h))
strncmp_equal_iff (suc n) (x ∷ xs) [] = ((λ h. cc h), (λ h. cc h))
strncmp_equal_iff (suc n) (x ∷ xs) (y ∷ ys) = ground (arith, strncmp_equal_iff n xs ys)

take_stem : (stem : List ℕ) (a : ℕ) → take (length stem) (stem ++ a ∷ []) ≡ stem
take_stem [] a = refl
take_stem (x ∷ xs) a = ap (λ t. x ∷ t) (take_stem xs a)

module _ (has_sub_resources : ℕ) where
  -- A URL names a device: as long as the device's own, or longer with a `/` behind it if the device
  -- has sub-resources; and the same in all but the last character of the device's own.
  abbrev pub IsNamed : List ℕ → ℕ → Sensor → Type 0
  IsNamed prefix len i =
      ((su_url_len i ≡ len)
        ⊎ ((su_url_len i < len)
            × (has_bit i.config.flags has_sub_resources ≡ true)
            × (get_or prefix (su_url_len i) 0 ≡ 47)))
      × (take (compared i) prefix ≡ take (compared i) i.type)

  is_match_iff :
      (prefix : List ℕ) (len : ℕ) (i : Sensor)
      → (is_match has_sub_resources prefix len i ≡ true) ↔ IsNamed prefix len i
  unfolding is_match
  is_match_iff prefix len i = ground (arith, strncmp_equal_iff (compared i) prefix i.type)

  -- what a search may give
  abbrev pub IsFirst : List Sensor → List ℕ → ℕ → Option Sensor → Type 0
  IsFirst devices prefix len none =
      (j : ℕ) (e : Sensor) → get_elem? devices j ≡ some e → ¬ IsNamed prefix len e
  IsFirst devices prefix len (some d) =
      (i : ℕ) × (get_elem? devices i ≡ some d)
      × IsNamed prefix len d
      × ((j : ℕ) (e : Sensor) → j < i → get_elem? devices j ≡ some e → ¬ IsNamed prefix len e)

  behind_another :
      (prefix : List ℕ) (len : ℕ) (d : Sensor) (ds : List Sensor) (found : Option Sensor)
      → ¬ IsNamed prefix len d
      → IsFirst ds prefix len found
      → IsFirst (d ∷ ds) prefix len found
  behind_another prefix len d ds none other nobody = nowhere
    where
      nowhere : (j : ℕ) (e : Sensor) → get_elem? (d ∷ ds) j ≡ some e → ¬ IsNamed prefix len e
      nowhere zero e here =
          λ named. other (subst (IsNamed prefix len) (sym (some-injective d e here)) named)
      nowhere (suc j) e here = nobody j e here
  behind_another prefix len d ds (some f) other (i, at, named, first) = (suc i, at, named, before)
    where
      before :
          (j : ℕ) (e : Sensor) → j < suc i → get_elem? (d ∷ ds) j ≡ some e → ¬ IsNamed prefix len e
      before zero e lt here =
          λ named'. other (subst (IsNamed prefix len) (sym (some-injective d e here)) named')
      before (suc j) e lt here = first j e (omega arith) here

  first_match-IsFirst :
      (devices : List Sensor) (prefix : List ℕ) (len : ℕ)
      → IsFirst devices prefix len (first_match has_sub_resources devices prefix len)
  unfolding first_match
  first_match-IsFirst [] prefix len = λ j e h. cc h
  first_match-IsFirst (d ∷ ds) prefix len =
      elim (Bool-cases (is_match has_sub_resources prefix len d)) [
        | inl e ↦ rw e (0, refl, (is_match_iff prefix len d).0 e, (λ j f lt. absurd (omega arith)))
        | inr e ↦ rw e (
            behind_another prefix len d ds (first_match has_sub_resources ds prefix len)
              (λ named. cc ((is_match_iff prefix len d).1 named, e))
              (first_match-IsFirst ds prefix len))
      ]

  -- The search gives the first of the devices that the URL names, and NULL exactly if it names none.
  pub susensors_find-IsFirst :
      (devices : List Sensor) (prefix : List ℕ) (len : ℕ)
      → IsFirst devices prefix
          (if len == 0 then length prefix % 65536 else len)
          (susensors_find has_sub_resources devices prefix len)
  unfolding susensors_find
  susensors_find-IsFirst devices prefix len = first_match-IsFirst devices prefix _

  -- The last character of a device's URL is not compared: a URL of at most 255 characters that differs
  -- from the first device's in its last character alone finds this device.
  susensors_find_last :
      (d : Sensor) (devices : List Sensor) (stem : List ℕ) (a b : ℕ)
      → d.type ≡ stem ++ a ∷ []
      → length stem < 255
      → susensors_find has_sub_resources (d ∷ devices) (stem ++ b ∷ []) 0 ≡ some d
  unfolding susensors_find first_match
  susensors_find_last d devices stem a b named short =
      let d_length = ap length named ∙ length-append stem (a ∷ []) in
      let url_length = length-append stem (b ∷ []) in
      let n : compared d ≡ length stem = ground (arith, d_length) in
      let same_stem =
        ap (λ k. take k (stem ++ b ∷ [])) n
        ∙ (take_stem stem b
            ∙ (sym (take_stem stem a)
                ∙ (ap (take (length stem)) (sym named) ∙ ap (λ k. take k d.type) (sym n)))) in
      let matches =
        (is_match_iff (stem ++ b ∷ []) (length (stem ++ b ∷ []) % 65536) d).1
          (inl (omega (arith, d_length, url_length)), same_stem) in
      rw matches refl
