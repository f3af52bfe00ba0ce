-- ===== src/Uart/Host/Alike.antt =====
-- The receiver of a node (uarthandler.c) and that of the test program (UartTest/uart.cpp) in the same state, and how a
-- stored byte and a change of the buffer keep them so.
use contiki_device_link.Common.{
  ℕ, suc, ◌+◌, ◌<◌, ◌≡◌, ◌≢◌, refl, ap, ap₂, sym, subst, Bool, true, false, if◌then◌else◌, ◌∙◌,
  List, [], ◌∷◌, ◌++◌, some, arith, ◌==◌, length, take, set, ltb, leb, get_or, length-set,
  Bool-cases, inl, inr,
}
use mathlib.Core.Option.{some-injective}
use contiki_device_link.Uart.{
  rx_buffers, rx_buflen, Buffer, blank, Uart, active, store_byte, set_active, write_byte,
  switchbuffer, contents,
}
use contiki_device_link.Uart.Framing.{get_or-set_self, get_or-set_ne, take-set}
use contiki_device_link.Uart.Host.{
  TestPort, host_buffers, host_buflen, empty_buffer, current_buffer, append_byte, next_ring_buffer,
}

-- A node's buffer and one of the test program that hold the same bytes.
pub record HoldSame (b c : Buffer) : Type 0 where
  pub pointers : b.wrt_ptr ≡ c.wrt_ptr
  pub held : contents b ≡ contents c

abbrev pub has_used : List ℕ → ℕ → Bool
has_used [] i = false
has_used (j ∷ js) i = if j == i then true else has_used js i

-- A node's receiver and the test program's in the same state: `seen` are the buffers that have been used, the active one
-- and those that are posted among them.
pub record IsAlike (seen : List ℕ) (u : Uart) (h : TestPort) : Type 0 where
  pub same_active : u.activebuffer ≡ h.current
  pub same_last : u.last_c ≡ h.last
  pub same_posted : u.posted ≡ h.signalled
  pub in_ring : u.activebuffer < rx_buffers
  pub node_ring : length u.rxbuf ≡ rx_buffers
  pub host_ring : length h.ring ≡ host_buffers
  pub node_sizes : (i : ℕ) → length (get_or u.rxbuf i blank).buffer ≡ rx_buflen
  pub host_sizes : (i : ℕ) → length (get_or h.ring i empty_buffer).buffer ≡ host_buflen
  pub in_use : has_used seen u.activebuffer ≡ true
  pub posted_used : (i : ℕ) → has_used u.posted i ≡ true → has_used seen i ≡ true
  pub same :
      (i : ℕ)
      → has_used seen i ≡ true
      → HoldSame (get_or u.rxbuf i blank) (get_or h.ring i empty_buffer)

put : Buffer → ℕ → Buffer
put b c = record { buffer = set b.buffer b.wrt_ptr c; wrt_ptr = b.wrt_ptr + 1 }

-- A property of every buffer of a ring is one after a buffer with it is put in.
all-set :
    (P : Buffer → Type 0) (ring : List Buffer) (n : ℕ) (b d : Buffer)
    → n < length ring
    → P b
    → ((i : ℕ) → P (get_or ring i d))
    → (i : ℕ) → P (get_or (set ring n b) i d)
all-set P ring n b d small new old i = elim (Bool-cases (n == i)) [
  | inl e ↦
      let at : n ≡ i = ground (arith, e) in
      subst (λ j. P (get_or (set ring n b) j d)) at
        (subst P (sym (get_or-set_self ring n b d small)) new)
  | inr ne ↦ subst P (sym (get_or-set_ne ring n i b d (ground (arith, ne)))) (old i)
]

same-set :
    (rs hs : List Buffer) (n i : ℕ) (b c : Buffer)
    → n < length rs
    → n < length hs
    → HoldSame b c
    → (n ≢ i → HoldSame (get_or rs i blank) (get_or hs i empty_buffer))
    → HoldSame (get_or (set rs n b) i blank) (get_or (set hs n c) i empty_buffer)
same-set rs hs n i b c small small' new old = elim (Bool-cases (n == i)) [
  | inl e ↦
      let at : n ≡ i = ground (arith, e) in
      subst (λ j. HoldSame (get_or (set rs n b) j blank) (get_or (set hs n c) j empty_buffer)) at
        (subst (λ x. HoldSame x (get_or (set hs n c) n empty_buffer))
          (sym (get_or-set_self rs n b blank small))
          (subst (λ x. HoldSame b x) (sym (get_or-set_self hs n c empty_buffer small')) new))
  | inr ne ↦
      let other : n ≢ i = ground (arith, ne) in
      subst (λ x. HoldSame x (get_or (set hs n c) i empty_buffer))
        (sym (get_or-set_ne rs n i b blank other))
        (subst (λ x. HoldSame (get_or rs i blank) x)
          (sym (get_or-set_ne hs n i c empty_buffer other)) (old other))
]

contents-put :
    (b : Buffer) (c : ℕ) → b.wrt_ptr < length b.buffer → contents (put b c) ≡ contents b ++ c ∷ []
unfolding put
contents-put b c small =
    ap (λ n. take n (set b.buffer b.wrt_ptr c)) {y = suc b.wrt_ptr} (omega arith)
    ∙ take-set b.buffer b.wrt_ptr c small

put-HoldSame :
    (b c : Buffer) (x : ℕ)
    → HoldSame b c
    → b.wrt_ptr < length b.buffer
    → c.wrt_ptr < length c.buffer
    → HoldSame (put b x) (put c x)
put-HoldSame b c x s small small' = record {
  pointers = unfold put in ap (λ n. n + 1) s.pointers;
  held = contents-put b x small ∙ (ap (λ l. l ++ x ∷ []) s.held ∙ sym (contents-put c x small'));
}

used_before : (j i : ℕ) (js : List ℕ) → j ≢ i → has_used (j ∷ js) i ≡ true → has_used js i ≡ true
used_before j i js other used = ground (arith, other, used)

used_also :
    (seen : List ℕ) (u : Uart) (h : TestPort) (j : ℕ)
    → IsAlike seen u h
    → (i : ℕ) → has_used (u.activebuffer ∷ u.posted) i ≡ true
    → has_used (j ∷ seen) i ≡ true
used_also seen u h j a i used = elim (Bool-cases (j == i)) [
  | inl e ↦ rw e refl
  | inr ne ↦ elim (Bool-cases (u.activebuffer == i)) [
    | inl e ↦ rw ne (ap (has_used seen) {y = u.activebuffer} (sym (ground (arith, e))) ∙ a.in_use)
    | inr f ↦ rw ne (a.posted_used i (rw f at used))
  ]
]

module _ (seen : List ℕ) (u : Uart) (h : TestPort) (a : IsAlike seen u h) where
  abbrev b : Buffer
  b = active u

  abbrev d : Buffer
  d = get_or h.ring u.activebuffer empty_buffer

  same_now : HoldSame b d
  same_now = a.same u.activebuffer a.in_use

  abbrev appended : ℕ → TestPort
  appended c = record h { ring = set h.ring u.activebuffer (put d c) }

  append_byte-appended : (c : ℕ) → b.wrt_ptr < rx_buflen → append_byte h c ≡ some (appended c)
  unfolding append_byte put
  append_byte-appended c small =
      let fits : ltb (current_buffer h).wrt_ptr host_buflen ≡ true =
        subst (λ i. ltb (get_or h.ring i empty_buffer).wrt_ptr host_buflen ≡ true) a.same_active
          (ground (arith, same_now.pointers, small)) in
      rw fits (
        ap (λ i. some (record h { ring = set h.ring i (put (get_or h.ring i empty_buffer) c) }))
          (sym a.same_active))

  IsAlike-appended :
      (c : ℕ) → b.wrt_ptr < rx_buflen → IsAlike seen (set_active u (put b c)) (appended c)
  unfolding set_active put
  IsAlike-appended c small =
      let room = a.node_sizes u.activebuffer in
      let host_room = a.host_sizes u.activebuffer in
      record {
        same_active = a.same_active;
        same_last = a.same_last;
        same_posted = a.same_posted;
        in_ring = a.in_ring;
        in_use = a.in_use;
        posted_used = a.posted_used;
        node_ring = length-set u.rxbuf u.activebuffer (put b c) ∙ a.node_ring;
        host_ring = length-set h.ring u.activebuffer (put d c) ∙ a.host_ring;
        node_sizes =
            all-set (λ x. length x.buffer ≡ rx_buflen) u.rxbuf u.activebuffer (put b c) blank
              (omega (arith, a.in_ring, a.node_ring)) (length-set b.buffer b.wrt_ptr c ∙ room)
              a.node_sizes;
        host_sizes =
            all-set (λ x. length x.buffer ≡ host_buflen) h.ring u.activebuffer (put d c)
              empty_buffer (omega (arith, a.in_ring, a.host_ring))
              (length-set d.buffer d.wrt_ptr c ∙ host_room) a.host_sizes;
        same = λ i used.
            same-set u.rxbuf h.ring u.activebuffer i (put b c) (put d c)
              (omega (arith, a.in_ring, a.node_ring)) (omega (arith, a.in_ring, a.host_ring))
              (put-HoldSame b d c same_now (omega (arith, small, room))
                (omega (arith, small, same_now.pointers, host_room)))
              (λ other. a.same i used);
      }

  store_byte-put : (c : ℕ) → b.wrt_ptr < rx_buflen → store_byte u c ≡ some (set_active u (put b c))
  unfolding store_byte write_byte put
  store_byte-put c small = ground arith

  -- a byte that the node stores
  pub IsAlike-store_byte :
      (c : ℕ) (v : Uart)
      → store_byte u c ≡ some v
      → (g : TestPort) × (append_byte h c ≡ some g) × IsAlike seen v g
  unfolding store_byte write_byte
  IsAlike-store_byte c v runs = elim (Bool-cases (ltb b.wrt_ptr rx_buflen)) [
    | inl fits ↦
        let small : b.wrt_ptr < rx_buflen = ground (arith, fits) in
        let at = some-injective (set_active u (put b c)) v (sym (store_byte-put c small) ∙ runs) in
        (
          appended c,
          append_byte-appended c small,
          subst (λ w. IsAlike seen w (appended c)) at (IsAlike-appended c small),
        )
    | inr full ↦ cc (rw (full, store_byte) at runs)
  ]

  abbrev pub following : ℕ
  following = if leb rx_buffers (u.activebuffer + 1) then 0 else u.activebuffer + 1

  abbrev pub switched : TestPort
  switched = record h {
    ring = set h.ring following (record (get_or h.ring following empty_buffer) { wrt_ptr = 0 });
    current = following;
    signalled = u.activebuffer ∷ u.posted;
  }

  pub next_ring_buffer-switched :
      next_ring_buffer (record h { signalled = h.current ∷ h.signalled }) ≡ switched
  unfolding next_ring_buffer
  next_ring_buffer-switched =
      let next = λ (i : ℕ). if leb rx_buffers (i + 1) then 0 else i + 1 in
      ap₂
        (λ (i : ℕ) (s : List ℕ). record h {
          ring = set h.ring (next i) (record (get_or h.ring (next i) empty_buffer) { wrt_ptr = 0 });
          current = next i;
          signalled = i ∷ s;
        })
        (sym a.same_active) (sym a.same_posted)

  following-ring : following < rx_buffers
  following-ring = ground (arith, a.in_ring)

  pub IsAlike-switchbuffer :
      IsAlike
        (following ∷ seen)
        (switchbuffer (record u { posted = u.activebuffer ∷ u.posted }))
        switched
  unfolding switchbuffer
  IsAlike-switchbuffer =
      let emptied = record (get_or u.rxbuf following blank) { wrt_ptr = 0 } in
      let host_emptied = record (get_or h.ring following empty_buffer) { wrt_ptr = 0 } in
      let small : following < length u.rxbuf = omega (arith, following-ring, a.node_ring) in
      let host_small : following < length h.ring = omega (arith, following-ring, a.host_ring) in
      record {
        same_active = refl;
        same_last = a.same_last;
        same_posted = refl;
        in_ring = following-ring;
        in_use = ground arith;
        posted_used = λ i used. used_also seen u h following a i used;
        node_ring = length-set u.rxbuf following emptied ∙ a.node_ring;
        host_ring = length-set h.ring following host_emptied ∙ a.host_ring;
        node_sizes =
            all-set (λ x. length x.buffer ≡ rx_buflen) u.rxbuf following emptied blank small
              (a.node_sizes following) a.node_sizes;
        host_sizes =
            all-set (λ x. length x.buffer ≡ host_buflen) h.ring following host_emptied empty_buffer
              host_small (a.host_sizes following) a.host_sizes;
        same = λ i used.
            same-set u.rxbuf h.ring following i emptied host_emptied small host_small
              (record { pointers = refl; held = refl })
              (λ other. a.same i (used_before following i seen other used));
      }
