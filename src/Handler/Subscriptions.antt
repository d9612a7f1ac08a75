-- ===== src/Handler/Subscriptions.antt =====
-- The subscriptions of watermelon/src/handler/mod.rs: how they count their messages, and how those
-- that nobody reads are closed.
use watermelon.Prelude.{
  ℕ, suc, ◌-◌, ◌==◌, Bool, false, List, [], ◌∷◌, ◌++◌, Option, none, some, length, ◌≡◌, ◌≢◌, refl,
  sym, ap, ◌∙◌, arith, if◌then◌else◌, All, append_assoc, Result, ok, ne→==, ◌||◌,
}
use watermelon.OrdMap.{Entries, get, insert, remove}
use watermelon.OrdMap.Order.{IsOrder, IsAscending, IsBelow}
use watermelon.OrdMap.Laws.{
  get-insert, get-remove, insert-IsAscending, remove-IsAscending, if_eq, IsBelow-eq,
}
use watermelon.SubscriptionId.{SubscriptionId}
use watermelon.ServerError.{ServerError}
use watermelon.Proto.{ServerMessage}
use watermelon.Handler.{
  Handler, Subscription, Channels, sent, id_cmp, count_message, deliver, subscription_message,
  handle_message, multiplexed_subscription_id,
}
use watermelon.Handler.Commands.{
  CloseReason, failed_subscribe, dropped, close_subscription, close_subscriptions,
  closed_subscriptions, failed_unsubscribe,
}

pub id_cmp-IsOrder : IsOrder id_cmp
id_cmp-IsOrder = record {
  eq_refl = λ a. ground arith;
  eq_sym = λ a b h. ground arith;
  eq_left = λ a b c h. ground arith;
  lt_trans = λ a b c h k. ground arith;
  gt_lt = λ a b h. ground arith;
  lt_gt = λ a b h. ground arith;
}

-- the items that a channel takes
abbrev pub items : ℕ → List ServerMessage → List (ℕ × Result ServerError ServerMessage)
items channel [] = []
items channel (m ∷ ms) = (channel, ok m) ∷ items channel ms

-- whether an id is listed
abbrev lists : SubscriptionId → List (SubscriptionId × CloseReason) → Bool
lists x [] = false
lists x ((id, reason) ∷ entries) = x.id == id.id || lists x entries

listed :
    (x id : SubscriptionId) (b : Bool) (o : Option Subscription)
    → if◌then◌else◌ b none (if_eq (id_cmp x id) none o) ≡ if◌then◌else◌ (x.id == id.id || b) none o
listed x id b o = ground arith

get-remove_listed :
    (x id : SubscriptionId) (entries : List (SubscriptionId × CloseReason))
    (m : Entries SubscriptionId Subscription)
    → IsAscending id_cmp m
    → if◌then◌else◌ (lists x entries) none (get id_cmp x (remove id_cmp id m))
      ≡ if◌then◌else◌ (x.id == id.id || lists x entries) none (get id_cmp x m)
get-remove_listed x id entries m asc =
    ap (if◌then◌else◌ (lists x entries) none) (get-remove id_cmp id_cmp-IsOrder x id m asc)
    ∙ listed x id (lists x entries) (get id_cmp x m)

-- whether a subscription failed or is not read any more
abbrev pub is_closing : Channels → Option Subscription → Bool
is_closing channels none = false
is_closing channels (some s) = s.failed_subscribe || channels.is_closed s.messages

closed_below :
    (channels : Channels) (x : SubscriptionId) (m : Entries SubscriptionId Subscription)
    → IsBelow id_cmp x m
    → lists x (closed_subscriptions channels m) ≡ false
unfolding closed_subscriptions
closed_below channels x [] b = refl
closed_below channels x ((id, s) ∷ m) (b, bs) = ground (arith, closed_below channels x m bs)

closed_subscriptions-lists :
    (channels : Channels) (x : SubscriptionId) (m : Entries SubscriptionId Subscription)
    → IsAscending id_cmp m
    → lists x (closed_subscriptions channels m) ≡ is_closing channels (get id_cmp x m)
unfolding closed_subscriptions get
closed_subscriptions-lists channels x [] asc = refl
closed_subscriptions-lists channels x ((id, s) ∷ m) (b, asc) = ground (
  arith,
  closed_subscriptions-lists channels x m asc,
  closed_below channels x m,
  IsBelow-eq id_cmp id_cmp-IsOrder x id m,
)

module _ {I C : Type 0} where
  -- the messages handled one after another
  unfoldable pub serve : Channels → List ServerMessage → Handler I C → Handler I C
  unfolding handle_message
  serve channels [] h = h
  serve channels (m ∷ ms) h = serve channels ms (handle_message channels m h)

  handle_message-sent :
      (channels : Channels) (m : ServerMessage) (s : Subscription) (h : Handler I C)
      → (m.subscription_id.id == multiplexed_subscription_id.id) ≡ false
      → get id_cmp m.subscription_id h.subscriptions ≡ some s
      → channels.try_send s.messages ≡ sent
      → handle_message channels m h
        ≡ count_message m.subscription_id s
            (record h { delivered = h.delivered ++ ((s.messages, ok m) ∷ []) })
  unfolding handle_message subscription_message deliver
  handle_message-sent channels m s h own found takes =
      rw (own, subscription_message, found, takes) refl

  handle_message-for :
      (channels : Channels) (id : SubscriptionId) (m : ServerMessage) (s : Subscription)
      (h : Handler I C)
      → m.subscription_id ≡ id
      → id ≢ multiplexed_subscription_id
      → get id_cmp id h.subscriptions ≡ some s
      → channels.try_send s.messages ≡ sent
      → handle_message channels m h
        ≡ count_message id s (record h { delivered = h.delivered ++ ((s.messages, ok m) ∷ []) })
  handle_message-for channels id m s h e own found takes =
      let other : m.subscription_id.id ≢ multiplexed_subscription_id.id =
        λ q. own (sym e ∙ ap (λ n. record { id = n }) q) in
      let found' = ap (λ i. get id_cmp i h.subscriptions) e ∙ found in
      handle_message-sent channels m s h (ne→== other) found' takes
      ∙ ap
          (λ i.
            count_message i s (record h { delivered = h.delivered ++ ((s.messages, ok m) ∷ []) }))
          e

  count_message-last :
      (id : SubscriptionId) (s : Subscription) (h : Handler I C)
      → s.remaining ≡ some 1
      → count_message id s h ≡ record h { subscriptions = remove id_cmp id h.subscriptions }
  unfolding count_message
  count_message-last id s h e = rw (e, count_message) refl

  count_message-more :
      (id : SubscriptionId) (s : Subscription) (h : Handler I C) (k : ℕ)
      → s.remaining ≡ some (suc (suc k))
      → count_message id s h ≡ record h {
        subscriptions = insert id_cmp id (record s { remaining = some (suc k) }) h.subscriptions;
      }
  unfolding count_message
  count_message-more id s h k e =
      let down : suc (suc k) - 1 ≡ suc k = omega arith in
      let some_left : (suc k == 0) ≡ false = ground arith in
      rw (e, count_message, down, some_left) refl

  -- After `unsubscribe` with a limit, the channel gets exactly that many messages more, in order, and
  -- the subscription is gone with the last of them: as many messages as remain, each for the
  -- subscription, are delivered, if the channel takes them.
  pub serve-remaining :
      (channels : Channels) (id : SubscriptionId) (s : Subscription) (ms : List ServerMessage)
      (h : Handler I C)
      → IsAscending id_cmp h.subscriptions
      → id ≢ multiplexed_subscription_id
      → get id_cmp id h.subscriptions ≡ some s
      → s.remaining ≡ some (length ms)
      → ms ≢ []
      → All (λ m. m.subscription_id ≡ id) ms
      → channels.try_send s.messages ≡ sent
      → ((serve channels ms h).delivered ≡ h.delivered ++ items s.messages ms)
        × (get id_cmp id (serve channels ms h).subscriptions ≡ none)
  unfolding serve
  serve-remaining channels id s [] h asc own found left ne for_id takes = absurd (ne refl)
  serve-remaining channels id s (m ∷ []) h asc own found left ne (e, rest) takes =
      let took : Handler I C = record h { delivered = h.delivered ++ ((s.messages, ok m) ∷ []) } in
      let step =
        handle_message-for channels id m s h e own found takes
        ∙ count_message-last id s took left in
      let gone : get id_cmp id (remove id_cmp id h.subscriptions) ≡ none =
        get-remove id_cmp id_cmp-IsOrder id id h.subscriptions asc
        ∙ ap (λ o. if_eq o none (get id_cmp id h.subscriptions)) (id_cmp-IsOrder.eq_refl id) in
      (ap (λ q. q.delivered) step, ap (λ q. get id_cmp id q.subscriptions) step ∙ gone)
  serve-remaining channels id s (m ∷ (m2 ∷ ms)) h asc own found left ne (e, rest) takes =
      let took : Handler I C = record h { delivered = h.delivered ++ ((s.messages, ok m) ∷ []) } in
      let s' : Subscription = record s { remaining = some (length (m2 ∷ ms)) } in
      let next : Handler I C = record took {
        subscriptions = insert id_cmp id s' h.subscriptions;
      } in
      let step : handle_message channels m h ≡ next =
        handle_message-for channels id m s h e own found takes
        ∙ count_message-more id s took (length ms) left in
      let found' : get id_cmp id next.subscriptions ≡ some s' =
        get-insert id_cmp id_cmp-IsOrder id id s' h.subscriptions
        ∙ ap (λ o. if_eq o (some s') (get id_cmp id h.subscriptions)) (id_cmp-IsOrder.eq_refl id) in
      let (delivers, gone) =
        serve-remaining channels id s' (m2 ∷ ms) next
          (insert-IsAscending id_cmp id_cmp-IsOrder id s' h.subscriptions asc) own found' refl
          (λ q. absurd (cc)) rest takes in
      (
        ap (λ q. (serve channels (m2 ∷ ms) q).delivered) step
            ∙ delivers
            ∙ append_assoc h.delivered ((s.messages, ok m) ∷ []) (items s.messages (m2 ∷ ms)),
        ap (λ q. get id_cmp id (serve channels (m2 ∷ ms) q).subscriptions) step ∙ gone,
      )

  -- The ids that are closed, and nothing else, leave the map.
  close_subscriptions-get :
      (x : SubscriptionId) (entries : List (SubscriptionId × CloseReason)) (h : Handler I C)
      → IsAscending id_cmp h.subscriptions
      → (get id_cmp x (close_subscriptions entries h).subscriptions
          ≡ if◌then◌else◌ (lists x entries) none (get id_cmp x h.subscriptions))
        × IsAscending id_cmp (close_subscriptions entries h).subscriptions
  unfolding close_subscriptions close_subscription
  close_subscriptions-get x [] h asc = (refl, asc)
  close_subscriptions-get x ((id, failed_subscribe) ∷ entries) h asc =
      let (sees, kept) =
        close_subscriptions-get x entries
          (record h { subscriptions = remove id_cmp id h.subscriptions })
          (remove-IsAscending id_cmp id_cmp-IsOrder id h.subscriptions asc) in
      (sees ∙ get-remove_listed x id entries h.subscriptions asc, kept)
  close_subscriptions-get x ((id, dropped) ∷ entries) h asc =
      let (sees, kept) =
        close_subscriptions-get x entries (close_subscription id dropped h)
          (remove-IsAscending id_cmp id_cmp-IsOrder id h.subscriptions asc) in
      (sees ∙ get-remove_listed x id entries h.subscriptions asc, kept)

  -- `failed_unsubscribe` removes every subscription that failed or that is not read any more, and
  -- keeps every other one as it is; the ids stay in order.
  pub failed_unsubscribe-get :
      (channels : Channels) (x : SubscriptionId) (h : Handler I C)
      → IsAscending id_cmp h.subscriptions
      → (get id_cmp x (failed_unsubscribe channels h).subscriptions
          ≡ if◌then◌else◌
              (is_closing channels (get id_cmp x h.subscriptions))
              none
              (get id_cmp x h.subscriptions))
        × IsAscending id_cmp (failed_unsubscribe channels h).subscriptions
  unfolding failed_unsubscribe
  failed_unsubscribe-get channels x h asc =
      let (sees, kept) =
        close_subscriptions-get x (closed_subscriptions channels h.subscriptions) _ asc in
      (
        sees
            ∙ ap (λ b. if◌then◌else◌ b none (get id_cmp x h.subscriptions))
                (closed_subscriptions-lists channels x h.subscriptions asc),
        kept,
      )
