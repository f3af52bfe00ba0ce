-- ===== src/Uart/Host/Reception.antt =====
-- UartTest/uart.cpp, `readData`: the test program receives what a node receives.
use contiki_device_link.Common.{
  ℕ, suc, ◌≡◌, refl, ap, sym, subst, true, false, if◌then◌else◌, ◌∙◌, List, [], ◌∷◌, Option, some,
  arith, ◌==◌, ◌&&◌, length, replicate, zero, get_or, Bool-cases, inl, inr, Option-cases,
}
use mathlib.Core.Option.{some-injective}
use contiki_device_link.Uart.{
  end_byte, esc, esc_end, esc_esc, blank, Uart, uarthandler_init, store_byte, switchbuffer,
  remember, proxy_rx_callback, receive,
}
use contiki_device_link.Uart.Host.{
  TestPort, new_host, host_buflen, empty_buffer, append_byte, next_ring_buffer, read_one, read_data,
  keep_last,
}
use contiki_device_link.Uart.Ring.{uarthandler_init-IsReady}
use contiki_device_link.Uart.Host.Alike.{
  IsAlike, HoldSame, IsAlike-store_byte, following, switched, next_ring_buffer-switched,
  IsAlike-switchbuffer,
}

remembered :
    (seen : List ℕ) (u : Uart) (h : TestPort) (c : ℕ)
    → IsAlike seen u h
    → IsAlike seen (record u { last_c = c }) (record h { last = c })
remembered seen u h c a = record {
  same_active = a.same_active;
  same_last = refl;
  same_posted = a.same_posted;
  in_ring = a.in_ring;
  in_use = a.in_use;
  posted_used = a.posted_used;
  node_ring = a.node_ring;
  host_ring = a.host_ring;
  node_sizes = a.node_sizes;
  host_sizes = a.host_sizes;
  same = a.same;
}

-- what is stored for a byte that is not END
abbrev unescaped : ℕ → ℕ → ℕ
unescaped last c =
    if (c == esc_esc) && (last == esc)
    then last
    else (if (c == esc_end) && (last == esc) then end_byte else c)

node_byte :
    (u : Uart) (c : ℕ)
    → (c == end_byte) ≡ false
    → proxy_rx_callback u c ≡ remember c (store_byte u (unescaped u.last_c c))
unfolding proxy_rx_callback
node_byte u c other = ground (arith, other)

host_byte :
    (h : TestPort) (c : ℕ)
    → (c == end_byte) ≡ false
    → read_one h c ≡ keep_last c (append_byte h (unescaped h.last c))
unfolding read_one
host_byte h c other = elim (Bool-cases ((c == esc_esc) && (h.last == esc))) [
  | inl e ↦ rw other (rw e refl)
  | inr e ↦ elim (Bool-cases ((c == esc_end) && (h.last == esc))) [
    | inl f ↦ rw other (rw e (rw f refl))
    | inr f ↦ rw other (rw e (rw f refl))
  ]
]

node_end :
    (u : Uart) (c : ℕ)
    → (c == end_byte) ≡ true
    → proxy_rx_callback u c
      ≡ some
          (record (switchbuffer (record u { posted = u.activebuffer ∷ u.posted })) { last_c = c })
unfolding proxy_rx_callback remember
node_end u c e = rw e refl

host_end :
    (h : TestPort) (c : ℕ)
    → (c == end_byte) ≡ true
    → read_one h c
      ≡ some (record (next_ring_buffer (record h { signalled = h.current ∷ h.signalled })) {
        last = c;
      })
unfolding read_one
host_end h c e = rw e refl

-- what the test program makes of a byte that takes the node to `v`
record IsTaken (v : Uart) (read : Option TestPort) : Type 0 where
  now : List ℕ
  host : TestPort
  taken : read ≡ some host
  alike : IsAlike now v host

IsTaken-end :
    (seen : List ℕ) (u v : Uart) (h : TestPort) (c : ℕ)
    → IsAlike seen u h
    → (c == end_byte) ≡ true
    → proxy_rx_callback u c ≡ some v
    → IsTaken v (read_one h c)
IsTaken-end seen u v h c a e runs =
    let after = record (switchbuffer (record u { posted = u.activebuffer ∷ u.posted })) {
      last_c = c;
    } in
    record {
      now = following seen u h a ∷ seen;
      host = record (switched seen u h a) { last = c };
      taken =
          host_end h c e
          ∙ ap (λ (g : TestPort). some (record g { last = c }))
              (next_ring_buffer-switched seen u h a);
      alike =
          subst
            (λ w.
              IsAlike (following seen u h a ∷ seen) w (record (switched seen u h a) { last = c }))
            (some-injective after v (sym (node_end u c e) ∙ runs))
            (remembered (following seen u h a ∷ seen) _ (switched seen u h a) c
              (IsAlike-switchbuffer seen u h a));
    }

IsTaken-other :
    (seen : List ℕ) (u v : Uart) (h : TestPort) (c : ℕ)
    → IsAlike seen u h
    → (c == end_byte) ≡ false
    → proxy_rx_callback u c ≡ some v
    → IsTaken v (read_one h c)
unfolding remember
IsTaken-other seen u v h c a other runs =
    let kept = sym (node_byte u c other) ∙ runs in
    elim (Option-cases (store_byte u (unescaped u.last_c c))) [
      | inl full ↦ cc (sym (ap (remember c) full) ∙ kept)
      | inr (w, stored) ↦
          let (g, appends, alike) = IsAlike-store_byte seen u h a (unescaped u.last_c c) w stored in
          record {
            now = seen;
            host = record g { last = c };
            taken =
                host_byte h c other
                ∙ (ap (λ l. keep_last c (append_byte h (unescaped l c))) (sym a.same_last)
                    ∙ ap (keep_last c) appends);
            alike =
                subst (λ t. IsAlike seen t (record g { last = c }))
                  (some-injective (record w { last_c = c }) v (sym (ap (remember c) stored) ∙ kept))
                  (remembered seen w g c alike);
          }
    ]

-- Whatever bytes a node receives with no write out of bounds, the test program, in the same state before them,
-- receives too: it signals the same buffers, and those that are used hold the same bytes in both.
pub read_data-receive :
    (bytes : List ℕ) (seen : List ℕ) (u v : Uart) (h : TestPort)
    → IsAlike seen u h
    → receive u bytes ≡ some v
    → (now : List ℕ) × (g : TestPort) × (read_data h bytes ≡ some g) × IsAlike now v g
unfolding read_data receive
read_data-receive [] seen u v h a runs =
    (seen, h, refl, subst (λ w. IsAlike seen w h) (some-injective u v runs) a)
read_data-receive (c ∷ bytes) seen u v h a runs = elim (Option-cases (proxy_rx_callback u c)) [
  | inl stop ↦ cc (rw (stop, receive) at runs)
  | inr (w, goes) ↦
      let one : IsTaken w (read_one h c) = elim (Bool-cases (c == end_byte)) [
        | inl e ↦ IsTaken-end seen u w h c a e goes
        | inr e ↦ IsTaken-other seen u w h c a e goes
      ] in
      let (now, g, reads, alike) =
        read_data-receive bytes one.now w v one.host one.alike (rw (goes, receive) at runs) in
      (now, g, rw (one.taken, read_data) reads, alike)
]

blank_same :
    (n i : ℕ)
    → HoldSame
        (get_or (replicate n blank) i blank)
        (get_or (replicate n empty_buffer) i empty_buffer)
blank_same zero i = record { pointers = refl; held = refl }
blank_same (suc n) zero = record { pointers = refl; held = refl }
blank_same (suc n) (suc i) = blank_same n i

empty_sizes :
    (n i : ℕ) → length (get_or (replicate n empty_buffer) i empty_buffer).buffer ≡ host_buflen
empty_sizes zero i = refl
empty_sizes (suc n) zero = refl
empty_sizes (suc n) (suc i) = empty_sizes n i

-- A node at its start and a new test program are in the same state, if the latter's last byte, which is not set, is 0.
pub new_host-IsAlike : IsAlike (1 ∷ []) uarthandler_init (new_host 0)
unfolding uarthandler_init new_host switchbuffer next_ring_buffer
new_host-IsAlike = record {
  same_active = refl;
  same_last = refl;
  same_posted = refl;
  in_ring = omega arith;
  in_use = refl;
  posted_used = λ i used. absurd (ground (arith, used));
  node_ring = refl;
  host_ring = refl;
  node_sizes = uarthandler_init-IsReady.valid.sizes;
  host_sizes = empty_sizes 5;
  same = λ i used. blank_same 5 i;
}
