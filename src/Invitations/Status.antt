-- ===== src/Invitations/Status.antt =====
-- The status of an invitation, and the pages of a listing.
use typescript_version_taxi.Base.{
  All, List, Memᴰ, [], ap, arith, filter, leb, length, map, ok, refl, some, suc, true, zero, ℕ, ◌*◌,
  ◌-◌, ◌↔◌, ◌∙◌, ◌∷◌, ◌≡◌, ◌≤◌,
}
use typescript_version_taxi.Base.Members.{All-of-mem, mem-filter, mem-map}
use typescript_version_taxi.External.Queries.{Queries}
use typescript_version_taxi.Invitations.{
  InvitationResponse, InvitationStatus, InvitationsPage, InvitationsQueryDto, accepted_status,
  expired_status, has_status, invitation_response, is_listed, pending_status, skip, status_of, take,
}
use typescript_version_taxi.Invitations.Requests.{get_invitations}
use typescript_version_taxi.Schema.{Invitation, Store, Time, Uuid}

-- The listing's condition on a status holds exactly of the invitations that are shown with that
-- status.
pub has_status_iff :
    (status : InvitationStatus) (now : Time) (i : Invitation)
    → (has_status (some status) now i ≡ true) ↔ (status_of now i ≡ status)
has_status_iff pending_status now i = ground arith
has_status_iff accepted_status now i = ground arith
has_status_iff expired_status now i = ground arith

module _ {A : Type 0} where
  mem-skip : (n : ℕ) (xs : List A) (a : A) → Memᴰ a (skip n xs) → Memᴰ a xs
  mem-skip zero xs a m = m
  mem-skip (suc n) [] a m = m
  mem-skip (suc n) (x ∷ xs) a m = Memᴰ.tail (mem-skip n xs a m)

  mem-take : (n : ℕ) (xs : List A) (a : A) → Memᴰ a (take n xs) → Memᴰ a xs
  mem-take zero xs a m = elim m [ ]
  mem-take (suc n) [] a m = elim m [ ]
  mem-take (suc n) (x ∷ xs) a (Memᴰ.head e) = Memᴰ.head e
  mem-take (suc n) (x ∷ xs) a (Memᴰ.tail m) = Memᴰ.tail (mem-take n xs a m)

  length-take : (n : ℕ) (xs : List A) → length (take n xs) ≤ n
  length-take zero xs = omega arith
  length-take (suc n) [] = omega arith
  length-take (suc n) (x ∷ xs) = omega (arith, length-take n xs)

  length-map : {B : Type 0} (f : A → B) (xs : List A) → length (map f xs) ≡ length xs
  length-map f [] = refl
  length-map f (x ∷ xs) = ap suc (length-map f xs)

module _ (q : Queries) {D : Type 0} where
  open q use {order_by, order_by_mem}

  -- A page that is asked for by status shows invitations of the caller's tenant only, each with
  -- that status, and no more than the page size.
  pub get_invitations_sound :
      (tenant : Uuid) (query : InvitationsQueryDto) (now : Time) (s : Store D)
      (status : InvitationStatus) (page : InvitationsPage)
      → query.status ≡ some status
      → (get_invitations q tenant query now s).0 ≡ ok page
      → All (λ x. (x.tenant_id ≡ tenant) × (x.status ≡ status)) page.items
        × (length page.items ≤ query.page_size)
  unfolding get_invitations
  get_invitations_sound tenant query now s status page h r =
      let found = filter (is_listed tenant query now) s.invitations in
      let ordered = order_by (λ (x y : Invitation). leb y.expires_at x.expires_at) found in
      let rows = take query.page_size (skip ((query.page - 1) * query.page_size) ordered) in
      let answer = λ (i : Invitation). invitation_response s (status_of now i) i in
      let shown : page.items ≡ map answer rows = ground arith in
      (
        All-of-mem _ page.items (λ x m.
            let (i, among_rows, e) = mem-map answer rows x (rw (← shown) m) in
            let listed =
              order_by_mem _ found i (mem-skip _ ordered i (mem-take _ _ i among_rows)) in
            let (stands, holds) = mem-filter (is_listed tenant query now) s.invitations i listed in
            (
              ap (λ (y : InvitationResponse). y.tenant_id) e ∙ ground (arith, holds),
              ap (λ (y : InvitationResponse). y.status) e
                  ∙ (has_status_iff status now i).0 (ground (arith, holds, h)),
            )),
        omega (
          arith,
          ap length shown,
          length-map answer rows,
          length-take query.page_size (skip ((query.page - 1) * query.page_size) ordered),
        ),
      )
