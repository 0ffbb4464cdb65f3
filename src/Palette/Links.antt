-- ===== src/Palette/Links.antt =====
-- The links to the page of events, and what they open there: from
-- frontend/components/dashboard/command-palette.tsx, from the feed of
-- frontend/components/dashboard/activity-feed-live.tsx and from
-- frontend/app/(dashboard)/mitigations/[id]/page.tsx. `encodeURIComponent` and the parameters of an
-- address are arguments.
use prefixd.Base.{
  none, Option, some, List, [], ◌∷◌, ◌++◌, map, In, inl, inr, ◌≡◌, ◌≢◌, refl, ap, ◌∙◌,
}
use prefixd.Base.Text.{Text, codes}
use prefixd.Table.Events.{Event}
use prefixd.Table.Events.Panel.{Selection, shown_panel, panel, shown_panel_lem}
use prefixd.Activity.{FeedEvent, event_item}
use prefixd.Detail.Rule.{RuleShown, linked_events, event_hrefs}
use prefixd.Palette.{event_href, events_page, after_link}

mapped_In : {A B : Type 0} (f : A → B) (a : A) (l : List A) → In a l → In (f a) (map f l)
mapped_In f a [] h = h
mapped_In f a (x ∷ l) (inl e) = inl (ap f e)
mapped_In f a (x ∷ l) (inr later) = inr (mapped_In f a l later)

module _ (encode : Text → Text) (get : Text → Text → Option Text) where
  -- The page that is mounted at the address, with those events loaded, shows the panel of one with that
  -- id.
  abbrev pub Opens : List Event → Text → Text → Type 0
  Opens events id address =
      (f : Event) × (shown_panel (some events) (after_link none (get address)) ≡ panel f)
      × (f.event_id ≡ id)

  -- Where an event that is loaded has an id, the entry of the command palette, the item of the feed and
  -- the link on the page of a mitigation that it has caused or prolonged have addresses at which the
  -- page of events, when it is mounted there, shows its panel, if the parameter of an address is read
  -- back as it was encoded; a page of events that is mounted already shows what it has shown, whatever
  -- the address is.
  pub links_lem :
      (events : List Event) (e : Event) (feed : FeedEvent) (m : RuleShown)
      → In e events
      → e.event_id ≢ []
      → feed.event_id ≡ e.event_id
      → In e.event_id (linked_events m)
      → ((id : Text) → get (codes "/events?id=" ++ encode id) (codes "id") ≡ some id)
      → Opens events e.event_id (event_href encode e)
        × ((address : Text) × ((event_item encode feed).href ≡ some address)
            × Opens events e.event_id address)
        × ((address : Text) × In address (event_hrefs encode m) × Opens events e.event_id address)
        × ((selected : Selection) (address : Text)
            → shown_panel (some events) (after_link (some selected) (get address))
              ≡ shown_panel (some events) selected)
  unfolding after_link events_page event_item
  links_lem events e feed m loaded filled same_id linked reads = (
    opens,
    (event_href encode e, ap (λ id. some (codes "/events?id=" ++ encode id)) same_id, opens),
    (
      event_href encode e,
      mapped_In (λ id. codes "/events?id=" ++ encode id) e.event_id (linked_events m) linked,
      opens,
    ),
    λ selected address. refl,
  )
    where
      opens : Opens events e.event_id (event_href encode e)
      opens =
          let (f, shows, is_id) = (shown_panel_lem events e.event_id).1 e loaded refl filled in
          (f, ap (shown_panel (some events)) (reads e.event_id) ∙ shows, is_id)
