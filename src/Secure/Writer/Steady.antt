-- ===== src/Secure/Writer/Steady.antt =====
-- What holds between a writer that runs and the peer, and one fragment of the chosen message.
use webmux.Base.{
  ℕ, ◌+◌, ◌^◌, ◌≤◌, ◌<◌, ◌⊎◌, inl, inr, ◌≡◌, ◌≢◌, refl, sym, ap, subst, ◌∙◌, true, false, Option,
  none, some, List, [], ◌∷◌, arith, length, ◌==◌, Bool-cases, nat_key, string_key,
}
use webmux.Base.Map.{get}
use webmux.Secure.Noise.{Transport, Laws}
use webmux.Secure.Channel.{Assembly, Channel, finished, is_small, max_message}
use webmux.Secure.Channel.Pending.{totals}
use webmux.Secure.Channel.Delivery.{IsSending}
use webmux.Secure.Channel.Hop.{received, Synced, unsent, under_way, HasRoom, Hop, hop}
use webmux.Secure.Writer.{Queued, Writer, put_back}

-- A message of which nothing is sent, within the limits.
pub record IsNew (q : Queued) : Type 0 where
  pub unnumbered : q.message.id ≡ none
  pub at_start : q.message.offset ≡ 0
  pub filled : 0 < length q.message.content
  pub within : length q.message.content ≤ max_message

module _ (t : Transport) (l : Laws t) where
  -- The peer holds the beginning of the bulk message, and of no other.
  pub record Begun (s r : Channel t) (b : Queued) : Type 0 where
    pub id : ℕ
    pub named : b.message.id ≡ some id
    pub given : id < s.next_id
    pub sending : IsSending b.message
    pub begun : 0 < b.message.offset
    pub held : get id r.pending ≡ some (received b.message)
    pub alone : (i : ℕ) → i ≢ id → get i r.pending ≡ none

  abbrev pub Holds : Channel t → Channel t → Option Queued → Type 0
  Holds s r none = (i : ℕ) → get i r.pending ≡ none
  Holds s r (some b) = Begun s r b

  no_entries : (p : List (ℕ × Assembly)) → ((i : ℕ) → get i p ≡ none) → p ≡ []
  unfolding get
  no_entries [] h = refl
  no_entries ((i, a) ∷ p) h = ground (arith, h i)

  module _ (s r : Channel t) (x : Queued) (sending : IsSending x.message)
      (h : Hop t l s r x.message) where
    begun_later :
        finished h.m' ≡ false
        → ((i : ℕ) → i ≢ h.id → get i r.pending ≡ none)
        → Begun h.s' h.r' (record x { message = h.m' })
    unfolding finished
    begun_later more alone = record {
      id = h.id;
      named = h.named;
      given = h.given;
      sending = record {
        unfinished = ground (arith, h.advanced, ap length h.content, more);
        within = omega (arith, ap length h.content, sending.within);
      };
      begun = omega (arith, h.advanced, sending.unfinished);
      held = h.held more;
      alone = λ i ne. h.beside i ne ∙ alone i ne;
    }

    none_later :
        finished h.m' ≡ true
        → ((i : ℕ) → i ≢ h.id → get i r.pending ≡ none)
        → (i : ℕ) → get i h.r'.pending ≡ none
    none_later done alone i = elim (Bool-cases (i == h.id)) [
      | inl same ↦
          subst (λ (j : ℕ). get j h.r'.pending ≡ none) (sym (ground (arith, same))) (h.gone done)
      | inr other ↦ h.beside i (ground (arith, other)) ∙ alone i (ground (arith, other))
    ]

    -- A bulk message of another id is where it was.
    Begun-beside :
        (b : Queued) → finished h.m' ≡ true → h.id ≡ s.next_id → Begun s r b → Begun h.s' h.r' b
    Begun-beside b done new g = record {
      id = g.id;
      named = g.named;
      given = omega (arith, g.given, h.given, new);
      sending = g.sending;
      begun = g.begun;
      held = h.beside g.id (omega (arith, g.given, new)) ∙ g.held;
      alone = λ i ne. elim (Bool-cases (i == h.id)) [
        | inl same ↦
            subst (λ (j : ℕ). get j h.r'.pending ≡ none) (sym (ground (arith, same))) (h.gone done)
        | inr other ↦ h.beside i (ground (arith, other)) ∙ g.alone i ne
      ];
    }

    Holds-beside :
        (b : Option Queued)
        → finished h.m' ≡ true
        → h.id ≡ s.next_id
        → Holds s r b
        → Holds h.s' h.r' b
    Holds-beside none done new g = none_later done (λ i ne. g i)
    Holds-beside (some b) done new g = Begun-beside b done new g

  -- The fragment of the chosen message, and what follows from it for the writer's state: where the
  -- message is not finished, no other bulk message is under way.
  abbrev pub Sent : Channel t → Channel t → Writer → Queued → Type 0
  Sent s r w x =
      (h : Hop t l s r x.message) × Holds h.s' h.r' (put_back w (record x { message = h.m' })).bulk
      × (finished h.m' ≡ false → w.bulk ≡ none)

  module _ (s r : Channel t) (y : Synced t l s r) (ids : s.next_id + 1 < 2 ^ 64)
      (nonce : 0 < l.nonces_left s.transport) (w w' : Writer) (x : Queued) where
    HasRoom-new :
        IsNew x
        → (w.bulk ≡ none) ⊎ (is_small x.message ≡ true)
        → Holds s r w.bulk
        → HasRoom t l s r x.message
    unfolding is_small
    HasRoom-new new (inl e) holds q = (
      ids,
      λ big.
          let gone = no_entries r.pending (subst (Holds s r) e holds) in
          let sum = y.bounded.accounts ∙ ap totals gone in
          omega (arith, ap length gone, sum, new.within),
    )
    HasRoom-new new (inr e) holds q = (ids, λ big. ground (arith, e))

    -- A small message is sent whole.
    none_under_way :
        (h : Hop t l s r x.message)
        → IsNew x
        → (w.bulk ≡ none) ⊎ (is_small x.message ≡ true)
        → finished h.m' ≡ false
        → w.bulk ≡ none
    unfolding is_small finished
    none_under_way h new (inl e) more = e
    none_under_way h new (inr e) more =
        absurd (ground (arith, e, more, h.advanced, new.at_start, ap length h.content))

    new_holds :
        (h : Hop t l s r x.message)
        → IsNew x
        → IsSending x.message
        → w'.bulk ≡ w.bulk
        → (w.bulk ≡ none) ⊎ (is_small x.message ≡ true)
        → Holds s r w.bulk
        → Holds h.s' h.r' (put_back w' (record x { message = h.m' })).bulk
    unfolding put_back
    new_holds h new sending same room holds =
        let id : h.id ≡ s.next_id =
          h.numbered
          ∙ ap (λ (o : Option ℕ). elim o [ none ↦ s.next_id | some i ↦ i ]) new.unnumbered in
        elim (Bool-cases (finished h.m')) [
          | inl done ↦ rw (done, same) (Holds-beside s r x sending h w.bulk done id holds)
          | inr more ↦ rw more (
              begun_later s r x sending h more
                (λ i ne. subst (Holds s r) (none_under_way h new room more) holds i))
        ]

    pub new-Sent :
        IsNew x
        → w'.bulk ≡ w.bulk
        → (w.bulk ≡ none) ⊎ (is_small x.message ≡ true)
        → Holds s r w.bulk
        → Sent s r w' x
    new-Sent new same room holds =
        let sending : IsSending x.message = record {
          unfinished = omega (arith, new.at_start, new.filled);
          within = new.within;
        } in
        let h =
          hop t l s r x.message y sending (unsent new.unnumbered new.at_start)
            (HasRoom-new new room holds) nonce in
        (h, new_holds h new sending same room holds, λ more. same ∙ none_under_way h new room more)

    pub bulk-Sent : w.bulk ≡ some x → w'.bulk ≡ none → Holds s r w.bulk → Sent s r w' x
    unfolding put_back
    bulk-Sent is gone holds =
        let g : Begun s r x = subst (Holds s r) is holds in
        let h =
          hop t l s r x.message y g.sending (under_way g.id g.named g.begun g.held)
            (λ e. cc (sym e ∙ g.named)) nonce in
        let id : h.id ≡ g.id =
          h.numbered ∙ ap (λ (o : Option ℕ). elim o [ none ↦ s.next_id | some i ↦ i ]) g.named in
        let alone : (i : ℕ) → i ≢ h.id → get i r.pending ≡ none =
          λ i ne. g.alone i (λ e. ne (e ∙ sym id)) in
        (
          h,
          elim (Bool-cases (finished h.m')) [
            | inl done ↦ rw (done, gone) (none_later s r x g.sending h done alone)
            | inr more ↦ rw more (begun_later s r x g.sending h more alone)
          ],
          λ more. gone,
        )
