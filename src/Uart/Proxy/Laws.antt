-- ===== src/Uart/Proxy/Laws.antt =====
-- What a message of the board does to the resources of uartsensors.c.
use contiki_device_link.Common.{
  ℕ, zero, suc, ◌+◌, ◌-◌, ◌%◌, ◌≤◌, ◌<◌, ◌≡◌, ◌⊎◌, inl, inr, refl, sym, ap, ◌∙◌, true, false, List,
  [], ◌∷◌, ◌++◌, some, if◌then◌else◌, ◌==◌, ltb, leb, length, take, drop, set, get_elem?, arith,
  length-take, length-drop,
}
use native.Mathlib.Nat.{zero-add}
use contiki_device_link.Cmp.{CmpObject, Codec}
use contiki_device_link.Sensor.Config.{cp_decode_object}
use contiki_device_link.Uart.Message.{
  resource_value_update, resource_event, resource_updateval, read_bytes,
}
use contiki_device_link.Uart.Proxy.{
  lastvalsize, overlap, ProxyResource, Host, received, copy_to, find_id, value_length, store_bytes,
  store_value, cp_decode_u8, update_conf, update_value, handle_sensor_messages,
}

drop_nil : (n : ℕ) → drop {A = ℕ} n [] ≡ []
drop_nil zero = refl
drop_nil (suc n) = refl

add_suc : (n k : ℕ) → suc n + k ≡ suc (n + k)
add_suc n k = omega arith

overlaid :
    (bytes buffer : List ℕ) (j : ℕ)
    → get_elem? (bytes ++ drop (length bytes) buffer) j
      ≡ (if ltb j (length bytes) then get_elem? bytes j else get_elem? buffer j)
overlaid [] [] j = ground arith
overlaid [] (x ∷ xs) j = ground arith
overlaid (y ∷ ys) [] zero = ground arith
overlaid (y ∷ ys) [] (suc j) = ground (arith, overlaid ys [] j, drop_nil (length ys))
overlaid (y ∷ ys) (x ∷ xs) zero = ground arith
overlaid (y ∷ ys) (x ∷ xs) (suc j) = ground (arith, overlaid ys xs j)

copied :
    (at : ℕ) (bytes buffer : List ℕ) (k : ℕ)
    → at ≤ length buffer
    → get_elem? (take at buffer ++ (bytes ++ drop (at + length bytes) buffer)) k ≡ (
        if ltb k at
        then get_elem? buffer k
        else (if ltb k (at + length bytes) then get_elem? bytes (k - at) else get_elem? buffer k))
copied zero bytes buffer k h =
    ap (λ n. get_elem? (bytes ++ drop n buffer) k) (zero-add (length bytes))
    ∙ ground (arith, overlaid bytes buffer k)
copied (suc at) bytes [] k h = absurd (omega arith)
copied (suc at) bytes (x ∷ xs) zero h = ground arith
copied (suc at) bytes (x ∷ xs) (suc k) h =
    ap (λ n. get_elem? (take at xs ++ (bytes ++ drop n (x ∷ xs))) k) (add_suc at (length bytes))
    ∙ ground (arith, copied at bytes xs k)

get-take : (n : ℕ) (s : List ℕ) (j : ℕ) → j < n → get_elem? (take n s) j ≡ get_elem? s j
get-take zero s j h = absurd (omega arith)
get-take (suc n) [] j h = refl
get-take (suc n) (x ∷ xs) zero h = refl
get-take (suc n) (x ∷ xs) (suc j) h = get-take n xs j (omega arith)

get-drop : (i : ℕ) (s : List ℕ) (j : ℕ) → get_elem? (drop i s) j ≡ get_elem? s (i + j)
get-drop zero s j = ap (get_elem? s) (sym (zero-add j))
get-drop (suc i) [] j = refl
get-drop (suc i) (x ∷ xs) j = get-drop i xs j ∙ ap (get_elem? (x ∷ xs)) (sym (add_suc i j))

-- What a reading or an event of a known resource leaves behind: its value, `n` bytes from index
-- `from` of the buffer, lies at `lastval`.
pub record IsTaken (h : Host) (i : ℕ) (r : ProxyResource) (n from : ℕ) (h' : Host) : Type 0 where
  pub written :
      (j : ℕ)
      → j < n
      → get_elem? h'.payloadbuffer (r.lastval + j) ≡ get_elem? h.payloadbuffer (from + j)
  pub kept :
      (k : ℕ)
      → (k < r.lastval) ⊎ (r.lastval + n ≤ k)
      → get_elem? h'.payloadbuffer k ≡ get_elem? h.payloadbuffer k
  pub resources :
      h'.proxy_resource_list ≡ set h.proxy_resource_list i (record r { vallen = n % 256 })
  pub posted_is : h'.posted ≡ (if h.cmd == resource_event then i ∷ h.posted else h.posted)

abbrev value_at : Host → ℕ → ℕ → List ℕ
value_at h n from = take n (drop from h.payloadbuffer)

abbrev taken : Host → ℕ → ProxyResource → ℕ → ℕ → Host
taken h i r n from = record h {
  payloadbuffer =
      take r.lastval h.payloadbuffer
      ++ (value_at h n from ++ drop (r.lastval + length (value_at h n from)) h.payloadbuffer);
  proxy_resource_list = set h.proxy_resource_list i (record r { vallen = n % 256 });
  posted = (if h.cmd == resource_event then i ∷ h.posted else h.posted);
}

length-value_at :
    (h : Host) (n from : ℕ) → from + n ≤ length h.payloadbuffer → length (value_at h n from) ≡ n
length-value_at h n from fits =
    omega (arith, length-take n (drop from h.payloadbuffer), length-drop from h.payloadbuffer)

taken-IsTaken :
    (h : Host) (i : ℕ) (r : ProxyResource) (n from : ℕ)
    → from + n ≤ length h.payloadbuffer
    → r.lastval + n ≤ length h.payloadbuffer
    → IsTaken h i r n from (taken h i r n from)
taken-IsTaken h i r n from fits room =
    let size = length-value_at h n from fits in
    let at =
      λ (k : ℕ). copied r.lastval (value_at h n from) h.payloadbuffer k (omega (arith, room)) in
    record {
      written = λ j lt.
          at (r.lastval + j)
          ∙ ground (
            arith,
            size,
            ap (get_elem? (value_at h n from)) {x = r.lastval + j - r.lastval} {y = j}
                (omega arith),
            get-take n (drop from h.payloadbuffer) j lt,
            get-drop from h.payloadbuffer j,
          );
      kept = λ k outside. at k ∙ ground (arith, size, outside);
      resources = refl;
      posted_is = refl;
    }

read_bytes-eq :
    (s : List ℕ) (i n : ℕ) → i + n ≤ length s → read_bytes s i n ≡ some (take n (drop i s))
read_bytes-eq s i n fits = ground arith

copy_to-eq :
    (buffer : List ℕ) (at : ℕ) (bytes : List ℕ)
    → at + length bytes ≤ length buffer
    → copy_to buffer at bytes ≡ some (take at buffer ++ (bytes ++ drop (at + length bytes) buffer))
unfolding copy_to
copy_to-eq buffer at bytes fits = ground arith

leb-true : (a b : ℕ) → a ≤ b → leb a b ≡ true
leb-true a b h = ground arith

-- two ranges of `n` bytes have no byte in common
abbrev pub Apart : ℕ → ℕ → ℕ → Type 0
Apart a b n = (a + n ≤ b) ⊎ (b + n ≤ a)

overlap-false : (a b n : ℕ) → Apart a b n → overlap a b n ≡ false
overlap-false a b n apart = ground (arith, apart)

store_value-eq :
    (h : Host) (i : ℕ) (r : ProxyResource) (used : ℕ)
    → used ≤ lastvalsize
    → used ≤ h.len
    → h.len < 256
    → h.payload + h.len ≤ length h.payloadbuffer
    → r.lastval + (h.len - used) ≤ length h.payloadbuffer
    → Apart (h.payload + used) r.lastval (h.len - used)
    → store_value h i r used ≡ some (taken h i r (h.len - used) (h.payload + used))
unfolding store_value store_bytes
store_value-eq h i r used short within byte source room apart =
    let n : value_length h used ≡ h.len - used = omega (arith, within, byte) in
    let from = h.payload + used in
    let size = length-value_at h (h.len - used) from (omega (arith, within, source)) in
    rw (leb-true used lastvalsize short) (
      ap (store_bytes h i r used) n
      ∙ rw
          (
            read_bytes-eq h.payloadbuffer from (h.len - used) (omega (arith, within, source)),
            store_bytes,
          )
          (rw (overlap-false from r.lastval (h.len - used) apart) (
            rw
              (copy_to-eq h.payloadbuffer r.lastval (value_at h (h.len - used) from)
                (omega (arith, size, room)))
              refl)))

module _ (codec : Codec) where
  -- A reading or an event of a known resource, whose id was read from `used` bytes, at most 15, in a payload
  -- that lies in the buffer: if the buffer has room for the rest of the payload at the resource's
  -- `lastval`, and that room and the rest have no byte in common, the rest lies there afterwards, also
  -- where it is longer than the 15 bytes reserved, and no other byte of the buffer changes; an
  -- event is posted for the resource, and a reading is not.
  pub handle-IsTaken :
      (h : Host) (id used i : ℕ) (r : ProxyResource)
      → cp_decode_u8 codec (received h) ≡ some (id, used)
      → find_id h.proxy_resource_list id ≡ some (i, r)
      → (h.cmd ≡ resource_value_update) ⊎ (h.cmd ≡ resource_event)
      → used ≤ lastvalsize
      → used ≤ h.len
      → h.len < 256
      → h.payload + h.len ≤ length h.payloadbuffer
      → r.lastval + (h.len - used) ≤ length h.payloadbuffer
      → Apart (h.payload + used) r.lastval (h.len - used)
      → (h' : Host) × (handle_sensor_messages codec h ≡ some h')
        × IsTaken h i r (h.len - used) (h.payload + used) h'
  unfolding handle_sensor_messages
  handle-IsTaken h id used i r decoded known kind short within byte source room apart = (
    taken h i r (h.len - used) (h.payload + used),
    handled ∙ store_value-eq h i r used short within byte source room apart,
    taken-IsTaken h i r (h.len - used) (h.payload + used) (omega (arith, within, source)) room,
  )
    where
      handled : handle_sensor_messages codec h ≡ store_value h i r used
      handled =
          rw (decoded, handle_sensor_messages)
            (rw known (elim kind [ inl e ↦ rw e refl | inr e ↦ rw e refl ]))

  -- An update of a setting of a known resource: the object that is stored is read from the payload at
  -- the length of the parameter alone, whatever the length of the id before it.
  handle_updateval_lem :
      (h : Host) (id used parameter used' i size : ℕ) (o : CmpObject) (r : ProxyResource)
      → h.cmd ≡ resource_updateval
      → cp_decode_u8 codec (received h) ≡ some (id, used)
      → find_id h.proxy_resource_list id ≡ some (i, r)
      → cp_decode_u8 codec (drop used (received h)) ≡ some (parameter, used')
      → cp_decode_object codec (drop used' (received h)) ≡ some (o, size)
      → handle_sensor_messages codec h
        ≡ some (record h {
          proxy_resource_list =
              set h.proxy_resource_list i (record r { conf = update_conf r.conf parameter o });
        })
  unfolding handle_sensor_messages
  handle_updateval_lem h id used parameter used' i size o r kind first known second object =
      rw (first, handle_sensor_messages)
        (rw known (rw kind (rw (second, update_value) (rw object refl))))
