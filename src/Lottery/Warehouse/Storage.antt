-- ===== src/Lottery/Warehouse/Storage.antt =====
-- What a storage strategy of cmd/design/lottery/lottery.go promises, and that MongoDB's keeps it.
use kratos_demo.Prelude.{
  In, ◌≡◌, ◌↔◌, refl, sym, subst, ◌⊎◌, inl, inr, Option, none, List, String, Sum-cases,
}
use kratos_demo.Lottery.Warehouse.{
  Basics, LotteryType, LotteryTicket, LotteryDrawResult, StorageStrategy, Collection, MongoStorage,
  searched, mongo_strategy,
}

module _ (b : Basics) where
  -- What MongoDB documents of a collection: an insert that succeeds adds its document, and a cursor
  -- that is read to its end yields the stored documents that the query selects.
  pub record IsDocuments {D Q : Type 0} (c : Collection b D Q) (Selects : Q → D → Type 0)
      : Type 1 where
    pub Holds : D → c.Docs → Type 0
    pub insert_adds :
        (d : D) (s : c.Docs)
        → (c.insert_one d s).0 ≡ none
        → (x : D) → Holds x (c.insert_one d s).1 ↔ ((x ≡ d) ⊎ Holds x s)
    pub finds :
        (q : Q) (s : c.Docs) (cursor : c.Cursor)
        → c.find q s ≡ inr cursor
        → (c.all cursor).1 ≡ none
        → (x : D) → In x (c.all cursor).0 ↔ (Selects q x × Holds x s)

  abbrev pub OfUser : String → LotteryTicket b → Type 0
  OfUser user_id t = t.user_id ≡ user_id

  abbrev pub OfType : LotteryType → LotteryDrawResult b → Type 0
  OfType kind r = r.lottery_type ≡ kind

  -- A search after a save finds what it has found before, and what was saved if the query selects it.
  abbrev pub FindsSaved :
      {D Q S : Type 0}
      → (Q → D → Type 0)
      → (D → S → Option b.E × S)
      → (Q → S → List D × Option b.E)
      → Type 0
  FindsSaved {D} {Q} {S} Selects save find =
      (d : D) (q : Q) (s : S)
      → (save d s).0 ≡ none
      → (find q s).1 ≡ none
      → (find q (save d s).1).1 ≡ none
      → (x : D) → In x (find q (save d s).1).0 ↔ (((x ≡ d) × Selects q d) ⊎ In x (find q s).0)

  -- The contract of a strategy: its searches find what was saved, and neither kind of save changes the
  -- other kind of search.
  pub record IsStorage (st : StorageStrategy b) : Type 1 where
    pub tickets : FindsSaved OfUser st.save_ticket st.find_tickets_by_user
    pub draws : FindsSaved OfType st.save_draw_result st.find_draw_result_by_type
    pub tickets_kept :
        (r : LotteryDrawResult b) (user_id : String) (s : st.St)
        → st.find_tickets_by_user user_id (st.save_draw_result r s).1
          ≡ st.find_tickets_by_user user_id s
    pub draws_kept :
        (t : LotteryTicket b) (kind : LotteryType) (s : st.St)
        → st.find_draw_result_by_type kind (st.save_ticket t s).1
          ≡ st.find_draw_result_by_type kind s

  module _ {D Q : Type 0} (c : Collection b D Q) (Selects : Q → D → Type 0)
      (is : IsDocuments c Selects) where
    searched-In :
        (q : Q) (s : c.Docs)
        → (searched b c q s).1 ≡ none
        → (x : D) → In x (searched b c q s).0 ↔ (Selects q x × is.Holds x s)
    searched-In q s h x = elim (Sum-cases (c.find q s)) [
      | inl (e, k) ↦ absurd (cc (h, k))
      | inr (cursor, k) ↦
          let g : (c.all cursor).1 ≡ none = cc (h, k) in
          let e : searched b c q s ≡ c.all cursor = cc k in
          subst (λ found. In x found.0 ↔ (Selects q x × is.Holds x s)) (sym e)
            (is.finds q s cursor k g x)
    ]

    searched-FindsSaved : FindsSaved Selects c.insert_one (searched b c)
    searched-FindsSaved d q s saved before after x =
        let was = searched-In q s before x in
        let now = searched-In q (c.insert_one d s).1 after x in
        let holds = is.insert_adds d s saved x in
        (
          λ i.
              let (sel, h) = now.0 i in
              elim (holds.0 h) [
                | inl e ↦ inl (e, subst (Selects q) e sel)
                | inr old ↦ inr (was.1 (sel, old))
              ],
          λ i. elim i [
            | inl (e, sel) ↦ now.1 (subst (Selects q) (sym e) sel, holds.1 (inl e))
            | inr old ↦ let (sel, h) = was.0 old in now.1 (sel, holds.1 (inr h))
          ],
        )

  -- MongoDB's strategy keeps the contract of a storage strategy.
  pub mongo_strategy-IsStorage :
      (m : MongoStorage b)
      → IsDocuments m.ticket_coll OfUser
      → IsDocuments m.result_coll OfType
      → IsStorage (mongo_strategy b m)
  unfolding mongo_strategy
  mongo_strategy-IsStorage m t r = record {
    tickets = λ d q s. searched-FindsSaved m.ticket_coll OfUser t d q s.0;
    draws = λ d q s. searched-FindsSaved m.result_coll OfType r d q s.1;
    tickets_kept = λ d q s. refl;
    draws_kept = λ d q s. refl;
  }

  -- On collections that do what MongoDB documents: after a ticket has been saved with no failure, a
  -- search for a user's tickets that succeeds finds what it has found before, and the saved ticket if
  -- it is that user's; every search for draws answers as before.
  pub save_ticket-find_tickets_by_user :
      (m : MongoStorage b) (t : LotteryTicket b) (user_id : String) (s : (mongo_strategy b m).St)
      → IsDocuments m.ticket_coll OfUser
      → IsDocuments m.result_coll OfType
      → ((mongo_strategy b m).save_ticket t s).0 ≡ none
      → ((mongo_strategy b m).find_tickets_by_user user_id s).1 ≡ none
      → ((mongo_strategy b m).find_tickets_by_user user_id
          ((mongo_strategy b m).save_ticket t s).1).1
        ≡ none
      → ((x : LotteryTicket b)
          → In x
              ((mongo_strategy b m).find_tickets_by_user user_id
                ((mongo_strategy b m).save_ticket t s).1).0
            ↔ (((x ≡ t) × (t.user_id ≡ user_id))
                ⊎ In x ((mongo_strategy b m).find_tickets_by_user user_id s).0))
        × ((kind : LotteryType)
            → (mongo_strategy b m).find_draw_result_by_type kind
                ((mongo_strategy b m).save_ticket t s).1
              ≡ (mongo_strategy b m).find_draw_result_by_type kind s)
  save_ticket-find_tickets_by_user m t user_id s ts rs saved before after =
      let is = mongo_strategy-IsStorage m ts rs in
      (is.tickets t user_id s saved before after, λ kind. is.draws_kept t kind s)
