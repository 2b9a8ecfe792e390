-- ===== src/Hub/Events/Complete.antt =====
-- Which events a message holds: events.go.
use shinzo_host_client.Prelude.{
  ◌≡◌, refl, String, Bool, true, false, not, ◌&&◌, ◌||◌, Option, none, some, List, [], ◌∷◌, ◌==◌,
  string_eq, if◌then◌else◌, arith, All, ==_iff, inl, inr, Bool-cases,
}
use shinzo_host_client.Hub.Events.{
  EventAttribute, Event, RpcResponse, ViewRegisteredEvent, json_rpc_version, tm_event_tx_type,
  event_type_view_registered, attr_view_id, attr_contract_address, attr_creator, empty_view,
  empty_event, read_attribute, read_attributes, is_complete, extract_events, extract_of,
  extract_shinzo_events,
}

-- The value of the last attribute of a key, or another where there is none.
unfoldable pub last_value : String → List EventAttribute → String → String
last_value key [] default = default
last_value key (a ∷ attributes) default =
    last_value key attributes (if a.key == key then a.value else default)

-- The event that the attributes describe, each by its last value.
unfoldable pub described : List EventAttribute → ViewRegisteredEvent
unfolding last_value empty_view
described attributes = record {
  view_id = last_value "view_id" attributes "";
  contract_address = last_value "contract_address" attributes "";
  creator = last_value "creator" attributes "";
  view = empty_view;
}

-- A registration with its three values.
is_announced : Event → Bool
unfolding last_value
is_announced event =
    event.type_ == "view.view_registered"
    && not (last_value "view_id" event.attributes "" == "")
    && not (last_value "contract_address" event.attributes "" == "")
    && not (last_value "creator" event.attributes "" == "")

-- The announced registrations among some events, in their order.
unfoldable pub announced : List Event → List ViewRegisteredEvent
unfolding is_announced described
announced [] = []
announced (event ∷ events) =
    let later = announced events in
    if is_announced event then described event.attributes ∷ later else later

read_attributes-last :
    (attributes : List EventAttribute) (e : ViewRegisteredEvent)
    → read_attributes attributes e ≡ record e {
      view_id = last_value "view_id" attributes e.view_id;
      contract_address = last_value "contract_address" attributes e.contract_address;
      creator = last_value "creator" attributes e.creator;
    }
unfolding read_attributes read_attribute last_value attr_view_id attr_contract_address attr_creator
read_attributes-last [] e = refl
read_attributes-last (a ∷ attributes) e = elim (Bool-cases (a.key == "view_id")) [
  | inl v ↦
      rw ((==_iff a.key "view_id").0 v)
        (read_attributes-last attributes (record e { view_id = a.value }))
  | inr v ↦ elim (Bool-cases (a.key == "contract_address")) [
    | inl c ↦
        rw ((==_iff a.key "contract_address").0 c)
          (read_attributes-last attributes (record e { contract_address = a.value }))
    | inr c ↦ elim (Bool-cases (a.key == "creator")) [
      | inl d ↦
          rw ((==_iff a.key "creator").0 d)
            (read_attributes-last attributes (record e { creator = a.value }))
      | inr d ↦ rw v (rw c (rw d (read_attributes-last attributes e)))
    ]
  ]
]

extract_events-announced : (events : List Event) → extract_events events ≡ announced events
unfolding extract_events announced is_announced is_complete described empty_event
    event_type_view_registered
extract_events-announced [] = refl
extract_events-announced (event ∷ events) =
    let read = read_attributes-last event.attributes empty_event in
    rw read (ground (arith, extract_events-announced events))

-- A message of the protocol's version and of the type of a transaction yields exactly the
-- registrations among its events that have the three values, in their order, where the last of the
-- attributes of a key counts; any other message, and one without events, yields none.
pub extract_shinzo_events-announced :
    (msg : RpcResponse)
    → extract_shinzo_events msg ≡ (
        if msg.jsonrpc_version == "2.0" && msg.data_type == "tendermint/event/Tx"
        then elim msg.events [ none ↦ [] | some events ↦ announced events ]
        else [])
unfolding extract_shinzo_events extract_of json_rpc_version tm_event_tx_type
extract_shinzo_events-announced msg = go msg.events
  where
    go :
        (events : Option (List Event))
        → (if not (msg.jsonrpc_version == "2.0") || not (msg.data_type == "tendermint/event/Tx")
            then []
            else extract_of events)
          ≡ (if msg.jsonrpc_version == "2.0" && msg.data_type == "tendermint/event/Tx"
              then elim events [ none ↦ [] | some es ↦ announced es ]
              else [])
    go none = ground arith
    go (some es) = ground (arith, extract_events-announced es)

announced-unviewed : (events : List Event) → All (λ e. e.view.query ≡ []) (announced events)
unfolding announced described empty_view
announced-unviewed [] = tt
announced-unviewed (event ∷ events) = elim (Bool-cases (is_announced event)) [
  | inl is ↦ rw is (refl, announced-unviewed events)
  | inr isnt ↦ rw isnt (announced-unviewed events)
]

-- The events of a message are without a query.
pub extract_shinzo_events-unviewed :
    (msg : RpcResponse) → All (λ e. e.view.query ≡ []) (extract_shinzo_events msg)
extract_shinzo_events-unviewed msg =
    rw (extract_shinzo_events-announced msg) (by_version msg.events _)
  where
    by_version :
        (events : Option (List Event)) (is : Bool)
        → All
            (λ e. e.view.query ≡ [])
            (if is then elim events [ none ↦ [] | some es ↦ announced es ] else [])
    by_version events false = tt
    by_version none true = tt
    by_version (some es) true = announced-unviewed es
