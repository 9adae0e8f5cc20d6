-- ===== src/Secure/Channel/Hop.antt =====
-- One fragment from the sender's channel to the receiver's, among the fragments of other messages.
use webmux.Base.{
  ℕ, ◌+◌, ◌-◌, ◌^◌, ◌≤◌, ◌<◌, max, ◌≡◌, ◌≢◌, refl, sym, subst, ap, ◌∙◌, true, false, none, some,
  Result, ok, err, List, [], ◌∷◌, ◌++◌, arith, length, length-append, length-take, take, take_all,
  take-append-take, if◌then◌else◌, nat_key,
}
use webmux.Base.Map.{get, get-insert, get-remove}
use webmux.Secure.Noise.{Transport, Laws}
use webmux.Secure.Channel.{
  Channel, Assembly, Error, OutgoingMessage, finished, plain, start, extend, fragment, settle,
  decode, encode_next, fragment_bytes, max_assemblies, max_assembly_bytes,
}
use webmux.Secure.Channel.Pending.{get-IsPartial, get_outside}
use webmux.Secure.Channel.Bounds.{Bounded, decode-Bounded}
use webmux.Secure.Channel.Delivery.{
  next_end, slice, IsSending, length-slice, length-plain, open_record,
}

-- The part of a message that the receiver holds.
abbrev pub received : OutgoingMessage → Assembly
received m = record { total = length m.content; content = take m.offset m.content }

-- What is handed on when a fragment of the message has come in.
abbrev pub delivered : OutgoingMessage → List (List ℕ)
delivered m = if finished m then m.content ∷ [] else []

module _ (t : Transport) (l : Laws t) where
  -- Two live channels in step: the receiver opens next what the sender seals next, and no id that
  -- the sender has still to give was seen.
  pub record Synced (s r : Channel t) : Type 0 where
    pub paired : l.Paired s.transport r.transport
    pub sender_live : s.failed ≡ false
    pub receiver_live : r.failed ≡ false
    pub fresh : r.last_started < s.next_id
    pub counter : s.next_id < 2 ^ 64
    pub bounded : Bounded t r

  -- The receiver holds of the message just what was sent.
  pub data Carried (r : Channel t) (m : OutgoingMessage) : Type 0 where
    unsent : m.id ≡ none → m.offset ≡ 0 → Carried r m
    under_way :
        (id : ℕ)
        → m.id ≡ some id
        → 0 < m.offset
        → get id r.pending ≡ some (received m)
        → Carried r m

  -- Room for the assembly of a new message of more than one fragment.
  abbrev pub HasRoom : Channel t → Channel t → OutgoingMessage → Type 0
  HasRoom s r m =
      m.id ≡ none
      → (s.next_id + 1 < 2 ^ 64)
        × (fragment_bytes < length m.content
            → (length r.pending < max_assemblies)
              × (r.reserved + length m.content ≤ max_assembly_bytes))

  received-slice :
      (m : OutgoingMessage)
      → IsSending m
      → take m.offset m.content ++ slice m ≡ take (next_end m) m.content
  received-slice m h =
      take-append-take m.offset (next_end m - m.offset) m.content
      ∙ ap (λ (k : ℕ). take k m.content) (omega arith)

  slice_first :
      (m : OutgoingMessage) → IsSending m → m.offset ≡ 0 → slice m ≡ take (next_end m) m.content
  slice_first m h z = sym (ap (λ (k : ℕ). take k m.content ++ slice m) z) ∙ received-slice m h

  -- What a receiver has made of the fragment that brought the message to its present offset.
  pub record Landed (r : Channel t) (id : ℕ) (m : OutgoingMessage)
      (f : Channel t × Result (List (List ℕ)) Error) : Type 0 where
    pub handed_on : f.1 ≡ ok (delivered m)
    pub live : f.0.failed ≡ r.failed
    pub transport : f.0.transport ≡ r.transport
    pub last_started : f.0.last_started ≡ max r.last_started id
    pub held : finished m ≡ false → get id f.0.pending ≡ some (received m)
    pub gone : finished m ≡ true → get id f.0.pending ≡ none
    pub others : (i : ℕ) → i ≢ id → get i f.0.pending ≡ get i r.pending

  module _ (r : Channel t) (id : ℕ) (m : OutgoingMessage) (h : IsSending m) (b : Bounded t r) where
    start-Landed :
        m.offset ≡ 0
        → r.last_started < id
        → (fragment_bytes < length m.content
            → (length r.pending < max_assemblies)
              × (r.reserved + length m.content ≤ max_assembly_bytes))
        → Landed r id
            (record m { offset = next_end m })
            (fragment t r id (length m.content) m.offset (slice m))
    unfolding fragment start finished
    start-Landed z lt room =
        let size = length-slice m h in
        let first = slice_first m h z in
        record {
          handed_on = ground (arith, size, first, take_all (next_end m) m.content);
          live = ground (arith, size);
          transport = ground (arith, size);
          last_started = ground (arith, size);
          held = λ e. ground (
            arith,
            size,
            first,
            get-insert id id (received (record m { offset = next_end m })) r.pending,
          );
          gone = λ e.
              ground (arith, size, first, get_outside 0 r.last_started id r.pending b.rising lt);
          others = λ i ne. ground (
            arith,
            size,
            first,
            get-insert id i (record { total = length m.content; content = slice m }) r.pending,
          );
        }

    extend-Landed :
        0 < m.offset
        → id ≤ r.last_started
        → get id r.pending ≡ some (received m)
        → Landed r id
            (record m { offset = next_end m })
            (fragment t r id (length m.content) m.offset (slice m))
    unfolding fragment extend finished
    extend-Landed pos le e =
        let size = length-slice m h in
        let joined = received-slice m h in
        let so_far = length-take m.offset m.content in
        let sum = length-append (take m.offset m.content) (slice m) in
        let m' : OutgoingMessage = record m { offset = next_end m } in
        record {
          handed_on = ground (arith, size, joined, so_far, sum, e, take_all (next_end m) m.content);
          live = ground (arith, size, joined, so_far, sum, e);
          transport = ground (arith, size, joined, so_far, sum, e);
          last_started = ground (arith, size, joined, so_far, sum, e);
          held = λ q.
              ground
                (arith, size, joined, so_far, sum, e, get-insert id id (received m') r.pending);
          gone = λ q. ground (arith, size, joined, so_far, sum, e, get-remove id id r.pending);
          others = λ i ne. ground (
            arith,
            size,
            joined,
            so_far,
            sum,
            e,
            get-insert id i
                (record { total = length m.content; content = take m.offset m.content ++ slice m })
                r.pending,
            get-remove id i r.pending,
          );
        }

  -- One fragment goes across: both calls succeed, the message advances to the next end, and it is
  -- handed on exactly with its last fragment. Messages under other ids are not disturbed.
  pub record Hop (s r : Channel t) (m : OutgoingMessage) : Type 0 where
    pub sealed : List ℕ
    pub s' : Channel t
    pub r' : Channel t
    pub m' : OutgoingMessage
    pub sent : encode_next t s m ≡ (s', m', ok sealed)
    pub opened : decode t r sealed ≡ (r', ok (delivered m'))
    pub synced : Synced s' r'
    pub content : m'.content ≡ m.content
    pub advanced : m'.offset ≡ next_end m
    pub nonces : l.nonces_left s.transport ≡ l.nonces_left s'.transport + 1
    pub id : ℕ
    pub named : m'.id ≡ some id
    pub numbered : id ≡ elim m.id [ none ↦ s.next_id | some i ↦ i ]
    pub ids : s'.next_id ≤ s.next_id + 1
    pub given : id < s'.next_id
    pub held : finished m' ≡ false → get id r'.pending ≡ some (received m')
    pub carried : finished m' ≡ false → Carried r' m'
    pub gone : finished m' ≡ true → get id r'.pending ≡ none
    pub beside : (i : ℕ) → i ≢ id → get i r'.pending ≡ get i r.pending
    pub others : (x : OutgoingMessage) → x.id ≢ m'.id → Carried r x → Carried r' x

  -- The record of the next fragment, sealed and opened.
  record Crossing (s r : Channel t) (id : ℕ) (m : OutgoingMessage) : Type 0 where
    sealed : List ℕ
    wrote : t.State
    read : t.State
    written_eq : t.write_message s.transport (plain t id m (next_end m)) ≡ some (sealed, wrote)
    paired : l.Paired wrote read
    nonces : l.nonces_left s.transport ≡ l.nonces_left wrote + 1
    decoded :
        decode t r sealed
        ≡ settle t
            (fragment t (record r { transport = read }) id (length m.content) m.offset (slice m))

  crossing :
      (s r : Channel t) (id : ℕ) (m : OutgoingMessage)
      → IsSending m
      → id < 2 ^ 64
      → Synced s r
      → 0 < l.nonces_left s.transport
      → Crossing s r id m
  crossing s r id m h small y n =
      let p = plain t id m (next_end m) in
      let fits : length p ≤ 65535 - 16 = omega (arith, length-plain t id m h) in
      let (sealed, wrote, e, k) = l.writes s.transport p fits n in
      let (read, e', q) = l.reads s.transport r.transport p sealed wrote y.paired e in
      record {
        sealed = sealed;
        wrote = wrote;
        read = read;
        written_eq = e;
        paired = q;
        nonces = k;
        decoded = open_record t l r id m sealed read h small y.receiver_live e';
      }

  settle-Landed :
      (r : Channel t) (id : ℕ) (m : OutgoingMessage) (f : Channel t × Result (List (List ℕ)) Error)
      → Landed r id m f
      → settle t f ≡ (f.0, ok (delivered m))
  unfolding settle
  settle-Landed r id m (c, ok messages) v = ground (arith, v.handed_on)
  settle-Landed r id m (c, err e) v = cc (v.handed_on)

  Carried-others :
      (r r' : Channel t) (id : ℕ)
      → ((i : ℕ) → i ≢ id → get i r'.pending ≡ get i r.pending)
      → (x : OutgoingMessage) → x.id ≢ some id
      → Carried r x
      → Carried r' x
  Carried-others r r' id same x ne (unsent e z) = unsent e z
  Carried-others r r' id same x ne (under_way i e pos g) =
      under_way i e pos (same i (λ q. ne (e ∙ ap some q)) ∙ g)

  module _ (s r : Channel t) (m : OutgoingMessage) (h : IsSending m) (y : Synced s r) where
    Synced-Bounded : (state : t.State) → Bounded t (record r { transport = state })
    Synced-Bounded state = record {
      rising = y.bounded.rising;
      accounts = y.bounded.accounts;
      few = y.bounded.few;
      capped = y.bounded.capped;
    }

    -- What both cases share: the receiver's side of a crossing that landed.
    land :
        (id : ℕ) (c : Crossing s r id m) (s' : Channel t)
        → let base = record r { transport = c.read } in
          let f = fragment t base id (length m.content) m.offset (slice m) in
          let m' = record m { id = some id; offset = next_end m } in
          Landed base id m' f
          → (id ≡ elim m.id [ none ↦ s.next_id | some i ↦ i ])
            × (s'.next_id ≤ s.next_id + 1)
            × (s'.transport ≡ c.wrote)
            × (s'.failed ≡ false)
            × (id < s'.next_id)
            × (s.next_id ≤ s'.next_id)
            × (s'.next_id < 2 ^ 64)
          → encode_next t s m ≡ (s', m', ok c.sealed)
          → Hop s r m
    land id c s' v (numbered, ids, e, live, new, mono, small) sent =
        let base : Channel t = record r { transport = c.read } in
        let f = fragment t base id (length m.content) m.offset (slice m) in
        let m' : OutgoingMessage = record m { id = some id; offset = next_end m } in
        let arrived : decode t r c.sealed ≡ (f.0, ok (delivered m')) =
          c.decoded ∙ settle-Landed base id m' f v in
        record {
          sealed = c.sealed;
          s' = s';
          r' = f.0;
          m' = m';
          sent = sent;
          opened = arrived;
          synced = record {
            paired =
                subst (λ x. l.Paired x f.0.transport) (sym e)
                  (subst (λ x. l.Paired c.wrote x) (sym v.transport) c.paired);
            sender_live = live;
            receiver_live = v.live ∙ y.receiver_live;
            fresh = omega (arith, v.last_started, y.fresh);
            counter = small;
            bounded =
                subst (λ (x : Channel t × Result (List (List ℕ)) Error). Bounded t x.0) arrived
                  (decode-Bounded t r c.sealed y.bounded);
          };
          content = refl;
          advanced = refl;
          nonces = c.nonces ∙ ap (λ x. l.nonces_left x + 1) (sym e);
          id = id;
          named = refl;
          numbered = numbered;
          ids = ids;
          given = new;
          held = v.held;
          gone = v.gone;
          beside = v.others;
          carried = λ q. under_way id refl (omega (arith, h.unfinished)) (v.held q);
          others = λ x ne k. Carried-others r f.0 id v.others x ne k;
        }

    Hop-first :
        m.id ≡ none → m.offset ≡ 0 → 0 < l.nonces_left s.transport → HasRoom s r m → Hop s r m
    unfolding encode_next finished
    Hop-first e z n room =
        let (fits, space) = room e in
        let c = crossing s r s.next_id m h y.counter y n in
        land s.next_id c (record s { next_id = s.next_id + 1; transport = c.wrote })
          (start-Landed (record r { transport = c.read }) s.next_id
            (record m { id = some s.next_id })
            (record { unfinished = h.unfinished; within = h.within }) (Synced-Bounded c.read) z
            y.fresh space)
          (rw e refl, omega arith, refl, y.sender_live, omega arith, omega arith, fits)
          (ground (arith, y.sender_live, h.unfinished, c.written_eq))

    Hop-next :
        (id : ℕ)
        → m.id ≡ some id
        → 0 < m.offset
        → get id r.pending ≡ some (received m)
        → 0 < l.nonces_left s.transport
        → Hop s r m
    unfolding encode_next finished
    Hop-next id e pos g n =
        let (p, le) = get-IsPartial id (received m) 0 r.last_started r.pending y.bounded.rising g in
        let c = crossing s r id m h (omega (arith, y.fresh, y.counter)) y n in
        land id c (record s { transport = c.wrote })
          (extend-Landed (record r { transport = c.read }) id (record m { id = some id })
            (record { unfinished = h.unfinished; within = h.within }) (Synced-Bounded c.read) pos le
            g)
          (
            rw e refl,
            omega arith,
            refl,
            y.sender_live,
            omega (arith, y.fresh),
            omega arith,
            y.counter,
          )
          (ground (arith, y.sender_live, h.unfinished, c.written_eq))

  -- The next fragment of any message under way, or of a new one that there is room for, goes across.
  pub hop :
      (s r : Channel t) (m : OutgoingMessage)
      → Synced s r
      → IsSending m
      → Carried r m
      → HasRoom s r m
      → 0 < l.nonces_left s.transport
      → Hop s r m
  hop s r m y h (unsent e z) room n = Hop-first s r m h y e z n room
  hop s r m y h (under_way id e pos g) room n = Hop-next s r m h y id e pos g n
