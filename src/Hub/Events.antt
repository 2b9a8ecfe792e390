-- ===== src/Hub/Events.antt =====
-- pkg/shinzohub/events.go: the typed events of a message from the hub.
pub mod Complete
use shinzo_host_client.Prelude.{
  ℕ, String, Bool, not, ◌&&◌, ◌||◌, Option, none, some, List, [], ◌∷◌, ◌==◌, nat_eq, string_eq,
  if◌then◌else◌,
}
use shinzo_host_client.Prelude.Text.{wrap}
use shinzo_host_client.Views.{View}

pub record EventAttribute : Type 0 where
  pub key : String
  pub value : String
  pub index : Bool

pub record Event : Type 0 where
  pub type_ : String
  pub attributes : List EventAttribute

-- The fields of a message that are read: its events are `none` where the slice is nil.
pub record RpcResponse : Type 0 where
  pub jsonrpc_version : String
  pub data_type : String
  pub events : Option (List Event)

-- The view is the zero value before the hydration.
pub record ViewRegisteredEvent : Type 0 where
  pub view_id : String
  pub contract_address : String
  pub creator : String
  pub view : View

unfoldable pub json_rpc_version : String
json_rpc_version = "2.0"

unfoldable pub tm_event_tx_type : String
tm_event_tx_type = "tendermint/event/Tx"

unfoldable pub event_type_view_registered : String
event_type_view_registered = "view.view_registered"

unfoldable pub event_type_view_registration_failed : String
event_type_view_registration_failed = "view.view_registration_failed"

unfoldable pub event_type_view_registration_timed_out : String
event_type_view_registration_timed_out = "view.view_registration_timed_out"

unfoldable pub attr_view_id : String
attr_view_id = "view_id"

unfoldable pub attr_contract_address : String
attr_contract_address = "contract_address"

unfoldable pub attr_creator : String
attr_creator = "creator"

subscription_query : String → String
unfolding wrap attr_view_id
subscription_query event_type =
    wrap "tm.event='Tx' AND " (wrap event_type (wrap "." (wrap attr_view_id " EXISTS")))

unfoldable pub get_subscription_queries : List String
unfolding subscription_query event_type_view_registered event_type_view_registration_failed
    event_type_view_registration_timed_out
get_subscription_queries =
    subscription_query event_type_view_registered
    ∷ subscription_query event_type_view_registration_failed
    ∷ subscription_query event_type_view_registration_timed_out
    ∷ []

empty_view : View
empty_view = record { name = ""; contract_address = ""; query = []; sdl = []; lenses = [] }

empty_event : ViewRegisteredEvent
unfolding empty_view
empty_event = record { view_id = ""; contract_address = ""; creator = ""; view = empty_view }

read_attribute : EventAttribute → ViewRegisteredEvent → ViewRegisteredEvent
unfolding attr_view_id attr_contract_address attr_creator
read_attribute a e =
    if a.key == attr_view_id
    then record e { view_id = a.value }
    else if a.key == attr_contract_address
    then record e { contract_address = a.value }
    else if a.key == attr_creator
    then record e { creator = a.value }
    else e

read_attributes : List EventAttribute → ViewRegisteredEvent → ViewRegisteredEvent
unfolding read_attribute
read_attributes [] e = e
read_attributes (a ∷ attributes) e = read_attributes attributes (read_attribute a e)

is_complete : ViewRegisteredEvent → Bool
is_complete e = not (e.view_id == "") && not (e.contract_address == "") && not (e.creator == "")

-- The failed and the timed-out registrations are only logged, as those of any other type are not.
extract_events : List Event → List ViewRegisteredEvent
unfolding read_attributes is_complete empty_event event_type_view_registered
extract_events [] = []
extract_events (event ∷ events) =
    let later = extract_events events in
    let read = read_attributes event.attributes empty_event in
    if event.type_ == event_type_view_registered && is_complete read then read ∷ later else later

extract_of : Option (List Event) → List ViewRegisteredEvent
unfolding extract_events
extract_of none = []
extract_of (some events) = extract_events events

unfoldable pub extract_shinzo_events : RpcResponse → List ViewRegisteredEvent
unfolding extract_of json_rpc_version tm_event_tx_type
extract_shinzo_events msg =
    if not (msg.jsonrpc_version == json_rpc_version) || not (msg.data_type == tm_event_tx_type)
    then []
    else extract_of msg.events
