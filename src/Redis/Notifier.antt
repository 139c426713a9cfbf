-- ===== src/Redis/Notifier.antt =====
-- The notifications between the cores and the historian: notifier.go of
-- internal/plugins/providers/state/redis. Redis' channels and encoding/json are parameters.
use natun.Prelude.{
  ℕ, ◌≡◌, ◌≢◌, refl, subst, ap, Bool, true, false, List, [], ◌∷◌, ◌++◌, arith, ◌==◌, if◌then◌else◌,
}
use natun.Prelude.Text.{Text, codes, text_eq}
use natun.Api.Errors.{Result, ok, err, panicked, ◌>>=◌, >>=-eq-ok, ok-injective, no_subscriber}

-- The two types of api.Notification.
pub data NotificationKind : Type 0 where
  write_kind collect_kind : NotificationKind

-- NotificationChannel
unfoldable pub notification_channel : NotificationKind → Text
notification_channel write_kind = codes "_raptor:notification:write"
notification_channel collect_kind = codes "_raptor:notification:collect"

-- json.Marshal and json.Unmarshal of a notification of type N. What is read from the text of a notification need
-- not be the same: the value of a write is an `any`, and its integers come back as floats.
pub record NotificationJson (N : Type 0) : Type 0 where
  pub marshal : N → Result Text
  pub unmarshal : Text → Result N

-- PUBLISH, which gives the number of the subscribers that got the message.
pub record PubSub (S : Type 0) : Type 0 where
  pub publish : Text → Text → S → Result ℕ × S

-- A subscription: the channels whose messages the server still sends it, and the payloads that it has received.
-- What Redis documents: PUBLISH sends a message to every client that is subscribed to its channel, and to no
-- other; how many these are does not say that this one is among them.
pub record Subscription {S : Type 0} (redis : PubSub S) (subscribed : Text → S → Bool)
    (received : Text → S → List Text) : Type 0 where
  pub publish_delivers :
      (channel msg : Text) (n : ℕ) (s : S)
      → subscribed channel s ≡ true
      → (redis.publish channel msg s).0 ≡ ok n
      → received channel (redis.publish channel msg s).1 ≡ received channel s ++ (msg ∷ [])
  pub publish_elsewhere :
      (channel other msg : Text) (s : S)
      → channel ≢ other
      → received other (redis.publish channel msg s).1 ≡ received other s

-- What Notify makes of the number of subscribers
unfoldable pub check_delivered : Result ℕ → Result (Unit {0})
check_delivered r = r >>= λ n. if n == 0 then err no_subscriber else ok tt

-- What follows json.Marshal
unfoldable pub publish_marshaled :
    {S : Type 0} → PubSub S → NotificationKind → Result Text → S → Result (Unit {0}) × S
publish_marshaled redis kind panicked s = (panicked, s)
publish_marshaled redis kind (err e) s = (err e, s)
publish_marshaled redis kind (ok msg) s =
    let (r, s') = redis.publish (notification_channel kind) msg s in (check_delivered r, s')

-- Notify
unfoldable pub notify :
    {N S : Type 0}
    → NotificationJson N
    → PubSub S
    → NotificationKind
    → N
    → S
    → Result (Unit {0}) × S
notify json redis kind notification s = publish_marshaled redis kind (json.marshal notification) s

-- The loop of Subscribe over the payloads: what is sent on the channel. A payload that is no notification
-- panics.
unfoldable pub read_payloads : {N : Type 0} → NotificationJson N → List Text → Result (List N)
read_payloads json [] = ok []
read_payloads json (msg ∷ msgs) = elim (json.unmarshal msg) [
  | panicked ↦ panicked
  | err e ↦ panicked
  | ok n ↦ (read_payloads json msgs >>= λ ns. ok (n ∷ ns))
]

first_payload :
    {N : Type 0} (json : NotificationJson N) (m : Text) (msgs : List Text) (ns : List N)
    → read_payloads json (m ∷ msgs) ≡ ok ns
    → (first : N) × (rest : List N) × (json.unmarshal m ≡ ok first)
      × (read_payloads json msgs ≡ ok rest)
      × (first ∷ rest ≡ ns)
unfolding read_payloads
first_payload {N} json m msgs ns e = from (json.unmarshal m) refl e
  where
    from :
        (r : Result N)
        → json.unmarshal m ≡ r
        → (elim r [
          | panicked ↦ panicked
          | err e ↦ panicked
          | ok n ↦ (read_payloads json msgs >>= λ ns. ok (n ∷ ns))
        ])
          ≡ ok ns
        → (first : N) × (rest : List N) × (json.unmarshal m ≡ ok first)
          × (read_payloads json msgs ≡ ok rest)
          × (first ∷ rest ≡ ns)
    from panicked same e = cc e
    from (err x) same e = cc e
    from (ok n) same e =
        let (rest, read, made) = >>=-eq-ok (read_payloads json msgs) _ e in
        (n, rest, same, read, ok-injective made)

read_payloads-append :
    {N : Type 0} (json : NotificationJson N) (msgs : List Text) (msg : Text) (ns : List N) (n : N)
    → read_payloads json msgs ≡ ok ns
    → json.unmarshal msg ≡ ok n
    → read_payloads json (msgs ++ (msg ∷ [])) ≡ ok (ns ++ (n ∷ []))
unfolding read_payloads
read_payloads-append {N} json [] msg ns n earlier last = rw last (ground arith)
read_payloads-append {N} json (m ∷ msgs) msg ns n earlier last =
    let (first, rest, is_first, read, joined) = first_payload json m msgs ns earlier in
    rw is_first (
      rw (read_payloads-append json msgs msg rest n read last)
        (ap (λ (l : List N). ok (l ++ (n ∷ []))) joined))

check_delivered-ok :
    (r : Result ℕ) → check_delivered r ≡ ok tt → (n : ℕ) × (r ≡ ok n) × ((n == 0) ≡ false)
unfolding check_delivered
check_delivered-ok panicked e = cc e
check_delivered-ok (err x) e = cc e
check_delivered-ok (ok n) e = (n, refl, ground arith)

-- The kind that is not this one.
abbrev pub other_kind : NotificationKind → NotificationKind
other_kind write_kind = collect_kind
other_kind collect_kind = write_kind

channels_differ :
    (kind : NotificationKind) → notification_channel kind ≢ notification_channel (other_kind kind)
unfolding notification_channel
channels_differ write_kind = λ e. absurd (cc (ap (text_eq (codes "_raptor:notification:write")) e))
channels_differ collect_kind =
    λ e. absurd (cc (ap (text_eq (codes "_raptor:notification:write")) e))

module _ {N S : Type 0} (json : NotificationJson N) (redis : PubSub S)
    (subscribed : Text → S → Bool) (received : Text → S → List Text)
    (laws : Subscription redis subscribed received) where
  -- What a subscription has read, and nothing new on the channel of the other kind.
  abbrev pub Reads : NotificationKind → N → List N → S → S → Type 0
  Reads kind n earlier s s' =
      (read_payloads json (received (notification_channel kind) s') ≡ ok (earlier ++ (n ∷ [])))
      × (received (notification_channel (other_kind kind)) s'
          ≡ received (notification_channel (other_kind kind)) s)

  publish_marshaled-Reads :
      (kind : NotificationKind) (r : Result Text) (n : N) (earlier : List N) (s s' : S)
      → ((msg : Text) → r ≡ ok msg → json.unmarshal msg ≡ ok n)
      → subscribed (notification_channel kind) s ≡ true
      → read_payloads json (received (notification_channel kind) s) ≡ ok earlier
      → publish_marshaled redis kind r s ≡ (ok tt, s')
      → Reads kind n earlier s s'
  unfolding publish_marshaled
  publish_marshaled-Reads kind panicked n earlier s s' decodes there read e = cc e
  publish_marshaled-Reads kind (err x) n earlier s s' decodes there read e = cc e
  publish_marshaled-Reads kind (ok msg) n earlier s s' decodes there read e =
      let channel = notification_channel kind in
      let (count, delivered, some_got) =
        check_delivered-ok (redis.publish channel msg s).0 (ap (λ p. p.0) e) in
      subst (Reads kind n earlier s) (ap (λ p. p.1) e) (
        rw (laws.publish_delivers channel msg count s there delivered)
            (read_payloads-append json (received channel s) msg earlier n read (decodes msg refl)),
        laws.publish_elsewhere channel (notification_channel (other_kind kind)) msg s
            (channels_differ kind),
      )

  -- A notification that Notify sends without an error, while a subscription of its kind is there, is the next
  -- one that it reads, behind those that it has read before, in the form that Unmarshal makes of its text;
  -- and the subscription gets nothing on the channel of the other kind.
  pub notify-Reads :
      (kind : NotificationKind) (sent n : N) (earlier : List N) (s s' : S)
      → ((msg : Text) → json.marshal sent ≡ ok msg → json.unmarshal msg ≡ ok n)
      → subscribed (notification_channel kind) s ≡ true
      → read_payloads json (received (notification_channel kind) s) ≡ ok earlier
      → notify json redis kind sent s ≡ (ok tt, s')
      → Reads kind n earlier s s'
  unfolding notify
  notify-Reads kind sent n earlier s s' decodes there read e =
      publish_marshaled-Reads kind (json.marshal sent) n earlier s s' decodes there read e
