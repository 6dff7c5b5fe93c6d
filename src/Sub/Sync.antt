-- ===== src/Sub/Sync.antt =====
-- A subscriber's own topics over calls of SetOption, and the commands for them.
use quicmq.Base.{
  suc, ◌^◌, ◌<◌, ◌≡◌, refl, ap, ◌∙◌, sym, Bool, true, false, List, [], ◌∷◌, ◌++◌, arith, length,
  if◌then◌else◌,
}
use quicmq.Base.Bytes.{Bytes, beq}
use quicmq.Msg.{Msg}
use quicmq.Conn.{has_topic, apply_cmd}
use quicmq.Conn.TopicSet.{SameTopics}
use quicmq.Conn.Topics.{cmd_msg, has_topic-apply, has_topic-add, has_topic-delete}
use quicmq.Sub.{subscribe}

-- A call of SetOption: true is OptionSubscribe, false is OptionUnsubscribe.
abbrev pub Change : Type 0
Change = Bool × Bytes

-- The subscriber's own set after the calls, and the command that each puts on the wire.
unfoldable pub own_topics : List Change → List Bytes → List Bytes
own_topics [] subs = subs
own_topics ((sub, k) ∷ cs) subs = own_topics cs (subscribe k (if sub then 1 else 0) subs)

unfoldable pub commands : List Change → List Msg
commands [] = []
commands ((sub, k) ∷ cs) = cmd_msg sub k ∷ commands cs

-- A topic that a command can carry.
abbrev pub FitsTopic : Bytes → Type 0
FitsTopic k = suc (length k) < 2 ^ 32

abbrev pub FitsChange : Change → Type 0
FitsChange c = FitsTopic c.1

pub subscribe-apply :
    (sub : Bool) (k : Bytes) (subs : List Bytes)
    → subscribe k (if sub then 1 else 0) subs ≡ apply_cmd (if sub then 1 else 0) k subs
unfolding subscribe apply_cmd
subscribe-apply true k subs = refl
subscribe-apply false k subs = refl

unfoldable pub as_changes : List Bytes → List Change
as_changes [] = []
as_changes (t ∷ ts) = (true, t) ∷ as_changes ts

own_topics-as_changes :
    (ts subs : List Bytes) (k : Bytes)
    → has_topic k (own_topics (as_changes ts) subs)
      ≡ (if has_topic k ts then true else has_topic k subs)
unfolding own_topics as_changes has_topic
own_topics-as_changes [] subs k = refl
own_topics-as_changes (t ∷ ts) subs k =
    own_topics-as_changes ts (subscribe t 1 subs) k
    ∙ ap (λ b. if has_topic k ts then true else b)
        (ap (has_topic k) (subscribe-apply true t subs) ∙ has_topic-apply true t k subs)
    ∙ ground arith

no_topic : (k : Bytes) → has_topic k [] ≡ false
unfolding has_topic
no_topic k = refl

if_true : (b : Bool) → (if b then true else false) ≡ b
if_true true = refl
if_true false = refl

pub own_topics-announced :
    (ts : List Bytes) (k : Bytes) → has_topic k (own_topics (as_changes ts) []) ≡ has_topic k ts
own_topics-announced ts k =
    own_topics-as_changes ts [] k
    ∙ ap (λ b. if has_topic k ts then true else b) (no_topic k)
    ∙ if_true (has_topic k ts)

pub own_topics-append :
    (cs ds : List Change) (ts : List Bytes)
    → own_topics (cs ++ ds) ts ≡ own_topics ds (own_topics cs ts)
unfolding own_topics
own_topics-append [] ds ts = refl
own_topics-append ((sub, k) ∷ cs) ds ts =
    own_topics-append cs ds (subscribe k (if sub then 1 else 0) ts)

subscribe-same :
    (sub : Bool) (k : Bytes) (ts us : List Bytes)
    → SameTopics ts us
    → SameTopics (subscribe k (if sub then 1 else 0) ts) (subscribe k (if sub then 1 else 0) us)
unfolding subscribe
subscribe-same true k ts us same j =
    has_topic-add j k ts
    ∙ ap (λ b. if beq k j then true else b) (same j)
    ∙ sym (has_topic-add j k us)
subscribe-same false k ts us same j =
    has_topic-delete j k ts
    ∙ ap (λ b. if beq k j then false else b) (same j)
    ∙ sym (has_topic-delete j k us)

pub own_topics-same :
    (cs : List Change) (ts us : List Bytes)
    → SameTopics ts us
    → SameTopics (own_topics cs ts) (own_topics cs us)
unfolding own_topics
own_topics-same [] ts us same = same
own_topics-same ((sub, k) ∷ cs) ts us same =
    own_topics-same cs (subscribe k (if sub then 1 else 0) ts)
      (subscribe k (if sub then 1 else 0) us) (subscribe-same sub k ts us same)

-- The announced topics and the calls behind them, from nothing, make the topics that the calls make of
-- the subscriber's own.
pub announced_then :
    (listing subs : List Bytes) (cs : List Change)
    → SameTopics listing subs
    → SameTopics (own_topics (as_changes listing ++ cs) []) (own_topics cs subs)
announced_then listing subs cs same k =
    ap (has_topic k) (own_topics-append (as_changes listing) cs [])
    ∙ own_topics-same cs (own_topics (as_changes listing) []) subs
        (λ j. own_topics-announced listing j ∙ same j) k
