-- ===== src/Delivery/Policy.antt =====
-- Which notices go out on which channel (backend/src/lib/channelPolicy.ts). A reason for not sending
-- is kept as its kind.
use kintsugi.Prelude.{ℕ, Bool, true, false, ◌&&◌, Option, none, some, ◌==◌, if◌then◌else◌}
use kintsugi.Prelude.Table.{Table, find_first, update_many, create}

pub data Channel : Type 0 where
  email push sms : Channel

pub data NoticeType : Type 0 where
  sale_made order_shipped order_delivered order_unfulfillable refund_issued review_received :
      NoticeType
  identity_verified identity_rejected listing_removed account_suspended report_resolved : NoticeType
  message_received placement_decided : NoticeType

pub data ChannelDefault : Type 0 where
  on opt_in off : ChannelDefault

pub record Policy : Type 0 where
  pub email : ChannelDefault
  pub push : ChannelDefault
  pub sms : ChannelDefault

abbrev pub policy_of : ChannelDefault → ChannelDefault → ChannelDefault → Policy
policy_of e p s = record { email = e; push = p; sms = s }

abbrev pub policy : NoticeType → Policy
policy sale_made = policy_of on on opt_in
policy order_shipped = policy_of on on off
policy order_delivered = policy_of off on off
policy order_unfulfillable = policy_of on on on
policy refund_issued = policy_of on on on
policy review_received = policy_of off on off
policy identity_verified = policy_of on on off
policy identity_rejected = policy_of on on off
policy listing_removed = policy_of on on off
policy account_suspended = policy_of on off off
policy report_resolved = policy_of off on off
policy message_received = policy_of on on off
policy placement_decided = policy_of on on off

unfoldable pub channel_default : NoticeType → Channel → ChannelDefault
channel_default t Channel.email = (policy t).email
channel_default t Channel.push = (policy t).push
channel_default t Channel.sms = (policy t).sms

abbrev pub is_offered_default : ChannelDefault → Bool
is_offered_default off = false
is_offered_default _ = true

unfoldable pub is_offered : NoticeType → Channel → Bool
unfolding channel_default
is_offered t c = is_offered_default (channel_default t c)

abbrev pub channel_code : Channel → ℕ
channel_code Channel.email = 0
channel_code Channel.push = 1
channel_code Channel.sms = 2

abbrev pub type_code : NoticeType → ℕ
type_code sale_made = 0
type_code order_shipped = 1
type_code order_delivered = 2
type_code order_unfulfillable = 3
type_code refund_issued = 4
type_code review_received = 5
type_code identity_verified = 6
type_code identity_rejected = 7
type_code listing_removed = 8
type_code account_suspended = 9
type_code report_resolved = 10
type_code message_received = 11
type_code placement_decided = 12

pub record Preference : Type 0 where
  pub user_id : ℕ
  pub type : NoticeType
  pub channel : Channel
  pub enabled : Bool

abbrev pub is_choice : ℕ → NoticeType → Channel → ℕ → Preference → Bool
is_choice user_id t c _ p =
    p.user_id == user_id
    && (type_code p.type == type_code t && channel_code p.channel == channel_code c)

pub data Reason : Type 0 where
  not_used turned_off not_opted_in : Reason

pub data Decision : Type 0 where
  send : Decision
  skip : Reason → Decision

abbrev pub by_default : ChannelDefault → Decision
by_default on = send
by_default opt_in = skip not_opted_in
by_default off = skip not_used

abbrev pub by_choice : ChannelDefault → Option (ℕ × Preference) → Decision
by_choice off choice = skip not_used
by_choice d none = by_default d
by_choice d (some (id, p)) = if p.enabled then send else skip turned_off

unfoldable pub should_send : ℕ → NoticeType → Channel → Table Preference → Decision
unfolding channel_default
should_send user_id t c preferences =
    by_choice (channel_default t c) (find_first (is_choice user_id t c) preferences)

-- None where the channel is not offered for the type. `id` is the key of a new row.
unfoldable pub set_preference :
    ℕ → ℕ → NoticeType → Channel → Bool → Table Preference → Option (Table Preference)
unfolding is_offered
set_preference id user_id t c enabled preferences =
    if is_offered t c
    then some (elim (find_first (is_choice user_id t c) preferences) [
      | none ↦
          create id (record { user_id = user_id; type = t; channel = c; enabled = enabled })
            preferences
      | some row ↦
          update_many (is_choice user_id t c) (λ p. record p { enabled = enabled }) preferences
    ])
    else none
