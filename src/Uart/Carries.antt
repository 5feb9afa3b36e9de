-- ===== src/Uart/Carries.antt =====
-- uart/mod.rs, pubsub/registry.rs: a registry whose topics carry the messages of each message type.
use native.Mathlib.Decide.{ℕ_discrete}
use text.Mathlib.TextEquality.{eq_iff}
use text.Mathlib.TextPositions.{eq_refl}
use mathlib.Core.Option.{some-injective}
use bibi_sync.Base.{
  ℕ, ◌<◌, ◌≡◌, ◌≢◌, refl, sym, ap, subst, ◌∙◌, String, false, none, some, List, [], ◌∷◌, ◌++◌,
  arith, ◌==◌, if◌then◌else◌, length, length-append, length-set, set, get_elem?-lt,
  get_elem?-append_left, get_elem?-append_at, get_elem?-set_ne, done, lookup, insert, lookup-insert,
}
use bibi_sync.Log
use bibi_sync.Log.{Log}
use bibi_sync.ByteRing.{ByteRingBuffer}
use bibi_sync.ByteRing.Refine.{ByteRepresents, new-ByteRepresents}
use bibi_sync.Topic
use bibi_sync.Topic.{ByteTopic}
use bibi_sync.Registry.{ByteShelf, create_byte, get_or_create_byte}
use bibi_sync.Registry.At.{Holds}
use bibi_sync.Uart.Message.{MsgType, to_u8, to_topic_name}
use bibi_sync.Uart.Wire.{Bytes}
use bibi_sync.Uart.Names.{to_u8-injective, to_topic_name-injective}

-- A bridge's topic with nothing received from it.
abbrev pub topic_log : List Bytes → Log Bytes
topic_log msgs = record { history = msgs; cursor = 0; capacity = 32 }

-- On the topic of a type these messages were published; it need not be there if there are none.
pub data Carried (shelf : ByteShelf) (t : MsgType) (msgs : List Bytes) : Type 0 where
  unused : lookup (to_topic_name t) shelf.byte_topics ≡ none → msgs ≡ [] → Carried shelf t msgs
  used :
      (arc : ℕ)
      → lookup (to_topic_name t) shelf.byte_topics ≡ some arc
      → Holds shelf arc (topic_log msgs)
      → Carried shelf t msgs

pub record Carries (shelf : ByteShelf) (sent : MsgType → List Bytes) : Type 0 where
  pub free : shelf.poisoned ≡ false
  pub entry :
      (name : String) (arc : ℕ) → lookup name shelf.byte_topics ≡ some arc → arc < length shelf.heap
  pub apart :
      (s t : MsgType) (arc : ℕ)
      → lookup (to_topic_name s) shelf.byte_topics ≡ some arc
      → lookup (to_topic_name t) shelf.byte_topics ≡ some arc
      → s ≡ t
  pub carried : (t : MsgType) → Carried shelf t (sent t)

-- The messages with one more of type `t`.
abbrev pub add : MsgType → Bytes → (MsgType → List Bytes) → MsgType → List Bytes
add t p sent u = if to_u8 t == to_u8 u then sent u ++ p ∷ [] else sent u

add_self :
    (t : MsgType) (p : Bytes) (sent : MsgType → List Bytes) → add t p sent t ≡ sent t ++ p ∷ []
add_self t p sent = ground arith

add_other :
    (t u : MsgType) (p : Bytes) (sent : MsgType → List Bytes)
    → to_u8 t ≢ to_u8 u
    → add t p sent u ≡ sent u
add_other t u p sent other = ground arith

module _ {shelf : ByteShelf} {sent : MsgType → List Bytes} (c : Carries shelf sent) where
  module _ (t : MsgType) (p : Bytes) (arc : ℕ)
      (named : lookup (to_topic_name t) shelf.byte_topics ≡ some arc) (topic' : ByteTopic) where
    abbrev pub written : ByteShelf
    written = record shelf { heap = set shelf.heap arc topic' }

    untouched :
        (u : MsgType) → to_u8 t ≢ to_u8 u → Carried shelf u (sent u) → Carried written u (sent u)
    untouched u other (unused absent nil) = unused absent nil
    untouched u other (used i there holds) =
        let ne : arc ≢ i =
          λ same. other (ap to_u8 (c.apart t u arc named (there ∙ ap some (sym same)))) in
        used i there (record {
          topic = holds.topic;
          there = get_elem?-set_ne shelf.heap arc i topic' ne ∙ holds.there;
          represents = holds.represents;
        })

    written-Carried :
        Holds written arc (topic_log (sent t ++ p ∷ []))
        → (u : MsgType) → Carried written u (add t p sent u)
    written-Carried h u = elim (ℕ_discrete (to_u8 t) (to_u8 u)) [
      | yes same ↦
          subst (λ (v : MsgType). Carried written v (add t p sent v)) (to_u8-injective t u same)
            (subst (Carried written t) (sym (add_self t p sent)) (used arc named h))
      | no other ↦
          subst (Carried written u) (sym (add_other t u p sent other))
            (untouched u other (c.carried u))
    ]

    pub written-Carries :
        Holds written arc (topic_log (sent t ++ p ∷ [])) → Carries written (add t p sent)
    written-Carries h = record {
      free = c.free;
      entry = λ name i e. omega (arith, c.entry name i e, length-set shelf.heap arc topic');
      apart = c.apart;
      carried = written-Carried h;
    }

  -- The topic of a type, made if it is not there.
  module _ (t : MsgType) (rb : ByteRingBuffer)
      (absent : lookup (to_topic_name t) shelf.byte_topics ≡ none) where
    fresh_topic : ByteTopic
    fresh_topic = record { name = to_topic_name t; buffer = rb }

    grown : ByteShelf
    grown = record shelf {
      byte_topics = insert (to_topic_name t) (length shelf.heap) shelf.byte_topics;
      heap = shelf.heap ++ fresh_topic ∷ [];
    }

    lookup-grown :
        (u : MsgType)
        → to_u8 t ≢ to_u8 u
        → lookup (to_topic_name u) grown.byte_topics ≡ lookup (to_topic_name u) shelf.byte_topics
    unfolding grown
    lookup-grown u other =
        let differs : to_topic_name t ≢ to_topic_name u =
          λ same. other (ap to_u8 (to_topic_name-injective t u same)) in
        ground (
          arith,
          lookup-insert (to_topic_name t) (to_topic_name u) (length shelf.heap) shelf.byte_topics,
          eq_iff (to_topic_name t) (to_topic_name u),
          differs,
        )

    lookup-grown_self : lookup (to_topic_name t) grown.byte_topics ≡ some (length shelf.heap)
    unfolding grown
    lookup-grown_self =
        lookup-insert (to_topic_name t) (to_topic_name t) (length shelf.heap) shelf.byte_topics
        ∙ ap
            (λ b.
              if b then some (length shelf.heap) else lookup (to_topic_name t) shelf.byte_topics)
            (eq_refl (to_topic_name t))

    -- An entry of another type is an old one.
    old_entry :
        (u : MsgType) (arc : ℕ)
        → to_u8 t ≢ to_u8 u
        → lookup (to_topic_name u) grown.byte_topics ≡ some arc
        → arc < length shelf.heap
    old_entry u arc other e = c.entry (to_topic_name u) arc (sym (lookup-grown u other) ∙ e)

    new_entry :
        (arc : ℕ) → lookup (to_topic_name t) grown.byte_topics ≡ some arc → length shelf.heap ≡ arc
    new_entry arc e = some-injective (length shelf.heap) arc (sym lookup-grown_self ∙ e)

    grown-apart :
        (s u : MsgType) (arc : ℕ)
        → lookup (to_topic_name s) grown.byte_topics ≡ some arc
        → lookup (to_topic_name u) grown.byte_topics ≡ some arc
        → s ≡ u
    grown-apart s u arc e f = elim (ℕ_discrete (to_u8 t) (to_u8 s)) [
      | yes same ↦ elim (ℕ_discrete (to_u8 t) (to_u8 u)) [
        | yes also ↦ to_u8-injective s u (sym same ∙ also)
        | no other ↦
            let at_new = new_entry arc (
              ap (λ v. lookup (to_topic_name v) grown.byte_topics) (to_u8-injective t s same)
              ∙ e) in
            absurd (omega (arith, at_new, old_entry u arc other f))
      ]
      | no other ↦ elim (ℕ_discrete (to_u8 t) (to_u8 u)) [
        | yes same ↦
            let at_new = new_entry arc (
              ap (λ v. lookup (to_topic_name v) grown.byte_topics) (to_u8-injective t u same)
              ∙ f) in
            absurd (omega (arith, at_new, old_entry s arc other e))
        | no also ↦ c.apart s u arc (sym (lookup-grown s other) ∙ e) (sym (lookup-grown u also) ∙ f)
      ]
    ]

    grown-Holds : (arc : ℕ) (log : Log Bytes) → Holds shelf arc log → Holds grown arc log
    unfolding grown
    grown-Holds arc log h = record {
      topic = h.topic;
      there =
          get_elem?-append_left shelf.heap (fresh_topic ∷ []) arc
            (get_elem?-lt shelf.heap arc h.topic h.there)
          ∙ h.there;
      represents = h.represents;
    }

    fresh-Holds : ByteRepresents rb (topic_log []) → Holds grown (length shelf.heap) (topic_log [])
    unfolding grown fresh_topic
    fresh-Holds w = record {
      topic = fresh_topic;
      there = get_elem?-append_at shelf.heap [] fresh_topic (length shelf.heap) refl;
      represents = w;
    }

    grown_old :
        (u : MsgType) → to_u8 t ≢ to_u8 u → Carried shelf u (sent u) → Carried grown u (sent u)
    grown_old u other (unused gone nil) = unused (lookup-grown u other ∙ gone) nil
    grown_old u other (used i there holds) =
        used i (lookup-grown u other ∙ there) (grown-Holds i (topic_log (sent u)) holds)

    grown-Carries : sent t ≡ [] → ByteRepresents rb (topic_log []) → Carries grown sent
    grown-Carries nil w = record {
      free = unfold grown in c.free;
      entry = λ name i e.
          unfold grown in
          ground (
            arith,
            lookup-insert (to_topic_name t) name (length shelf.heap) shelf.byte_topics,
            c.entry name i,
            length-append shelf.heap (fresh_topic ∷ []),
          );
      apart = grown-apart;
      carried = λ u. elim (ℕ_discrete (to_u8 t) (to_u8 u)) [
        | yes same ↦
            subst (λ (v : MsgType). Carried grown v (sent v)) (to_u8-injective t u same)
              (used (length shelf.heap) lookup-grown_self (
                subst (λ msgs. Holds grown (length shelf.heap) (topic_log msgs)) (sym nil)
                  (fresh-Holds w)))
        | no other ↦ grown_old u other (c.carried u)
      ];
    }

  -- Asking for the topic of a type gives one that holds the type's messages.
  pub record Ready (t : MsgType) : Type 0 where
    pub next : ByteShelf
    pub arc : ℕ
    pub asked : get_or_create_byte shelf (to_topic_name t) 32 ≡ (done arc, next)
    pub named : lookup (to_topic_name t) next.byte_topics ≡ some arc
    pub holds : Holds next arc (topic_log (sent t))
    pub carries : Carries next sent

  pub ready : (t : MsgType) → Carried shelf t (sent t) → Ready t
  unfolding get_or_create_byte create_byte Topic.new_byte grown fresh_topic Log.empty
  ready t (used i there held) = record {
    next = shelf;
    arc = i;
    asked = ground (arith, c.free, there);
    named = there;
    holds = held;
    carries = c;
  }
  ready t (unused absent nil) =
      let (rb, e, w) = new-ByteRepresents 32 (omega arith) (omega arith) in
      record {
        next = grown t rb absent;
        arc = length shelf.heap;
        asked = ground (arith, c.free, absent, e);
        named = lookup-grown_self t rb absent;
        holds =
            subst (λ msgs. Holds (grown t rb absent) (length shelf.heap) (topic_log msgs)) (sym nil)
              (fresh-Holds t rb absent w);
        carries = grown-Carries t rb absent nil w;
      }
