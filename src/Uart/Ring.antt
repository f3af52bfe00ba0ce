-- ===== src/Uart/Ring.antt =====
-- Whole frames through the ring of five receive buffers of uarthandler.c.
use contiki_device_link.Common.{
  ℕ, zero, suc, ◌+◌, ◌-◌, ◌%◌, ◌≤◌, ◌<◌, ◌≡◌, ◌≢◌, ◌↔◌, refl, ap, ap₂, sym, ◌∙◌, List, [], ◌∷◌,
  ◌++◌, some, arith, ◌==◌, length, take, set, get_or, length-set, replicate, Option-cases,
  Bool-cases, inl, inr,
}
use mathlib.Core.Option.{some-injective}
use contiki_device_link.Uart.{
  end_byte, esc, rx_buffers, rx_buflen, Buffer, blank, Uart, active, switchbuffer,
  proxy_rx_callback, receive, contents, stuff_all, frameandsend, uarthandler_init,
}
use contiki_device_link.Uart.Framing.{
  stored, escaped, IsPlain, stuff_all-NoEnd, stored-stuff_all, escaped_plain,
  length-stuff_all-escaped, IsValid, IsStored, receive-IsStored, receive-cons, get_or-set_self,
  get_or-set_ne, IsPlain-of_escaped,
}

-- The receiver between two frames.
pub record IsReady (u : Uart) : Type 0 where
  pub valid : IsValid u
  pub empty : (active u).wrt_ptr ≡ 0
  pub plain : u.last_c ≢ esc

abbrev pub next_buffer : ℕ → ℕ
next_buffer i = (i + 1) % rx_buffers

-- what `proxy_rx_callback` does at END
abbrev finished : Uart → Uart
finished u = record (switchbuffer (record u { posted = u.activebuffer ∷ u.posted })) {
  last_c = end_byte;
}

proxy_rx_callback-end : (u : Uart) → proxy_rx_callback u end_byte ≡ some (finished u)
unfolding proxy_rx_callback
proxy_rx_callback-end u = refl

next-switchbuffer :
    (u : Uart) → IsValid u → (switchbuffer u).activebuffer ≡ next_buffer u.activebuffer
unfolding switchbuffer
next-switchbuffer u v = ground (arith, v.in_ring)

rewound : Uart → Buffer
rewound u = record (get_or u.rxbuf (next_buffer u.activebuffer) blank) { wrt_ptr = 0 }

rxbuf-switchbuffer :
    (u : Uart)
    → IsValid u
    → (switchbuffer u).rxbuf ≡ set u.rxbuf (next_buffer u.activebuffer) (rewound u)
unfolding switchbuffer rewound
rxbuf-switchbuffer u v =
    ap (λ n. set u.rxbuf n (record (get_or u.rxbuf n blank) { wrt_ptr = 0 }))
      (next-switchbuffer u v)

posted-switchbuffer : (u : Uart) → (switchbuffer u).posted ≡ u.posted
unfolding switchbuffer
posted-switchbuffer u = refl

-- END hands the active buffer over, and leaves only the next one of the ring rewound.
record IsFinished (u u' : Uart) : Type 0 where
  handed : u'.posted ≡ u.activebuffer ∷ u.posted
  advanced : u'.activebuffer ≡ next_buffer u.activebuffer
  ready : IsReady u'
  kept : (i : ℕ) → i ≢ next_buffer u.activebuffer → get_or u'.rxbuf i blank ≡ get_or u.rxbuf i blank

size-switchbuffer :
    (u : Uart)
    → IsValid u
    → (i : ℕ)
    → length (get_or (set u.rxbuf (next_buffer u.activebuffer) (rewound u)) i blank).buffer
      ≡ rx_buflen
unfolding rewound
size-switchbuffer u v i = elim (Bool-cases (next_buffer u.activebuffer == i)) [
  | inl e ↦ ground (
    arith,
    v.buffers,
    v.sizes (next_buffer u.activebuffer),
    get_or-set_self u.rxbuf (next_buffer u.activebuffer) (rewound u) blank,
  )
  | inr e ↦
      ground
        (arith, v.sizes i, get_or-set_ne u.rxbuf (next_buffer u.activebuffer) i (rewound u) blank)
]

finished-IsFinished : (u : Uart) → IsValid u → IsFinished u (finished u)
unfolding rewound
finished-IsFinished u v =
    let w = record u { posted = u.activebuffer ∷ u.posted } in
    let wv : IsValid w = record { in_ring = v.in_ring; buffers = v.buffers; sizes = v.sizes } in
    let next = next-switchbuffer w wv in
    let bufs = rxbuf-switchbuffer w wv in
    let at_next : get_or (switchbuffer w).rxbuf (next_buffer u.activebuffer) blank ≡ rewound w =
      ap (λ l. get_or l (next_buffer u.activebuffer) blank) bufs
      ∙ get_or-set_self u.rxbuf (next_buffer u.activebuffer) (rewound w) blank
          (omega (arith, v.buffers)) in
    record {
      handed = posted-switchbuffer w;
      advanced = next;
      ready = record {
        valid = record {
          in_ring = omega (arith, next);
          buffers =
              ap length bufs
              ∙ (length-set u.rxbuf (next_buffer u.activebuffer) (rewound w) ∙ v.buffers);
          sizes = λ i. ap (λ l. length (get_or l i blank).buffer) bufs ∙ size-switchbuffer w wv i;
        };
        empty =
            ap (λ (i : ℕ). (get_or (switchbuffer w).rxbuf i blank).wrt_ptr) next
            ∙ ap (λ (b : Buffer). b.wrt_ptr) at_next;
        plain = omega arith;
      };
      kept = λ i ne.
          ap (λ l. get_or l i blank) bufs
          ∙ get_or-set_ne u.rxbuf (next_buffer u.activebuffer) i (rewound w) blank
              (λ e. ne (sym e));
    }

receive-append :
    (xs ys : List ℕ) (u t : Uart) → receive u xs ≡ some t → receive u (xs ++ ys) ≡ receive t ys
unfolding receive
receive-append [] ys u t e = ap (λ w. receive w ys) (some-injective u t e)
receive-append (x ∷ xs) ys u t e = elim (Option-cases (proxy_rx_callback u x)) [
  | inl stop ↦ cc (rw (stop, receive) at e)
  | inr (w, goes) ↦
      receive-cons u w x (xs ++ ys) goes
      ∙ receive-append xs ys w t (sym (receive-cons u w x xs goes) ∙ e)
]

-- `u'` is `u` after one frame of `s`: the message lies, escaped, in the buffer that was active and
-- has been posted; the receiver is ready in the next buffer, and the other three are as they were.
pub record IsDelivered (s : List ℕ) (u u' : Uart) : Type 0 where
  pub handed : u'.posted ≡ u.activebuffer ∷ u.posted
  pub held : contents (get_or u'.rxbuf u.activebuffer blank) ≡ escaped s
  pub written : (get_or u'.rxbuf u.activebuffer blank).wrt_ptr ≡ length (escaped s)
  pub advanced : u'.activebuffer ≡ next_buffer u.activebuffer
  pub ready : IsReady u'
  pub kept :
      (i : ℕ)
      → i ≢ u.activebuffer
      → i ≢ next_buffer u.activebuffer
      → get_or u'.rxbuf i blank ≡ get_or u.rxbuf i blank

contents-empty : (b : Buffer) → b.wrt_ptr ≡ 0 → contents b ≡ []
contents-empty b h = ap (λ n. take n b.buffer) h

IsDelivered-finished :
    (s bytes : List ℕ) (u t u' : Uart)
    → IsReady u
    → bytes ≡ escaped s
    → IsStored u bytes t
    → IsFinished t u'
    → IsDelivered s u u'
IsDelivered-finished s bytes u t u' r e stored_t done = record {
  handed = done.handed ∙ ap₂ ◌∷◌ stored_t.same_active stored_t.same_posted;
  held =
      ap contents (done.kept u.activebuffer (omega (arith, stored_t.same_active, r.valid.in_ring)))
      ∙ (ap (λ i. contents (get_or t.rxbuf i blank)) (sym stored_t.same_active)
          ∙ (stored_t.appended ∙ (ap (λ l. l ++ bytes) (contents-empty (active u) r.empty) ∙ e)));
  written =
      ap (λ (b : Buffer). b.wrt_ptr)
        (done.kept u.activebuffer (omega (arith, stored_t.same_active, r.valid.in_ring)))
      ∙ (ap (λ i. (get_or t.rxbuf i blank).wrt_ptr) (sym stored_t.same_active)
          ∙ omega (arith, stored_t.moved, r.empty, ap length e));
  advanced = done.advanced ∙ ap next_buffer stored_t.same_active;
  ready = done.ready;
  kept = λ i here next.
      done.kept i (λ q. next (q ∙ ap next_buffer stored_t.same_active)) ∙ stored_t.others i here;
}

take-length {ℓ} : {A : Type ℓ} (xs : List A) → take (length xs) xs ≡ xs
take-length [] = refl
take-length (x ∷ xs) = ap (λ t. x ∷ t) (take-length xs)

-- A framed message whose escaped form fits one receive buffer is received with no write out of
-- bounds, and delivered: in the buffer that was active, with the receiver ready in the next one.
pub receive-frameandsend :
    (s : List ℕ) (u : Uart)
    → IsReady u
    → length (escaped s) ≤ rx_buflen
    → (u' : Uart) × (receive u (frameandsend s (length s)) ≡ some u') × IsDelivered s u u'
unfolding frameandsend receive
receive-frameandsend s u r fits =
    let body : length (stuff_all s) ≤ rx_buflen = omega (arith, length-stuff_all-escaped s) in
    let (t, runs, stored_t, last) =
      receive-IsStored (stuff_all s) u r.valid (stuff_all-NoEnd s) (omega (arith, r.empty)) in
    let whole = ap (λ l. stuff_all l ++ end_byte ∷ []) (take-length s) in
    (
      finished t,
      ap (receive u) whole
          ∙ (receive-append (stuff_all s) (end_byte ∷ []) u t runs
              ∙ receive-cons t (finished t) end_byte [] (proxy_rx_callback-end t)),
      IsDelivered-finished s (stored u.last_c (stuff_all s)) u t (finished t) r
          (stored-stuff_all u.last_c s r.plain) stored_t (finished-IsFinished t stored_t.valid),
    )

-- A framed message whose escaped form fits a receive buffer is received, and lies in the buffer as it
-- was sent exactly if it holds no END and no ESC byte: the receiver stores the ESC that escapes a
-- byte as well as the byte.
pub delivered_iff_IsPlain :
    (s : List ℕ) (u : Uart)
    → IsReady u
    → length (escaped s) ≤ rx_buflen
    → (u' : Uart) × (receive u (frameandsend s (length s)) ≡ some u')
      × ((contents (get_or u'.rxbuf u.activebuffer blank) ≡ s) ↔ IsPlain s)
delivered_iff_IsPlain s u r fits =
    let (u', runs, d) = receive-frameandsend s u r fits in
    (
      u',
      runs,
      ((λ e. IsPlain-of_escaped s (ap length (sym d.held ∙ e))), (λ p. d.held ∙ escaped_plain s p)),
    )

-- Messages framed one after the other, as they follow on the wire.
abbrev pub frames : List (List ℕ) → List ℕ
frames [] = []
frames (s ∷ ss) = frameandsend s (length s) ++ frames ss

abbrev pub Fits : List (List ℕ) → Type 0
Fits [] = Unit
Fits (s ∷ ss) = (length (escaped s) ≤ rx_buflen) × Fits ss

-- how many frames it takes until the ring comes to buffer `i`
abbrev pub frames_until : Uart → ℕ → ℕ
frames_until u i = (i + rx_buffers - u.activebuffer) % rx_buffers

-- A run of frames is received without a write out of bounds, and leaves every buffer alone that the
-- ring has not come to: a posted message stays readable while at most three more frames arrive.
pub receive-frames :
    (ss : List (List ℕ)) (u : Uart)
    → IsReady u
    → Fits ss
    → (u' : Uart) × (receive u (frames ss) ≡ some u')
      × IsReady u'
      × ((i : ℕ)
          → i < rx_buffers
          → length ss < frames_until u i
          → get_or u'.rxbuf i blank ≡ get_or u.rxbuf i blank)
unfolding receive
receive-frames [] u r h = (u, refl, r, (λ i _ _. refl))
receive-frames (s ∷ ss) u r h =
    let (t, one, d) = receive-frameandsend s u r h.0 in
    let (u', rest, ready, kept) = receive-frames ss t d.ready h.1 in
    (
      u',
      receive-append (frameandsend s (length s)) (frames ss) u t one ∙ rest,
      ready,
      (λ i in_ring far.
          kept i in_ring (omega (arith, d.advanced, r.valid.in_ring))
          ∙ d.kept i (omega (arith, r.valid.in_ring)) (omega (arith, r.valid.in_ring))),
    )

blank_sizes : (n i : ℕ) → length (get_or (replicate n blank) i blank).buffer ≡ rx_buflen
blank_sizes zero i = refl
blank_sizes (suc n) zero = refl
blank_sizes (suc n) (suc i) = blank_sizes n i

-- The receiver is ready from the start.
pub uarthandler_init-IsReady : IsReady uarthandler_init
unfolding uarthandler_init
uarthandler_init-IsReady = record {
  valid = record { in_ring = omega arith; buffers = refl; sizes = blank_sizes 5 };
  empty = refl;
  plain = omega arith;
}
