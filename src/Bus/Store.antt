-- ===== src/Bus/Store.antt =====
-- The interface `store` of internal/domains/user/bus/bus.go: what the domain asks of a user store.
-- `S` is the state behind it; a method that only reads gives back no state.
use jumble.Shared.{Option, List}
use jumble.Go.Error.{Error, Result}
use jumble.Go.Int.{ℤ}
use jumble.Page.{Page}
use jumble.Bus.Order.{Field}
use jumble.Bus.Models.{Uuid, Address, User, QueryFilter}

pub record Store (S : Type 0) : Type 0 where
  pub create : User → S → Option Error × S
  pub update : User → S → Option Error × S
  pub delete : User → S → Option Error × S
  pub query_by_id : Uuid → S → Result User
  pub query_by_email : Address → S → Result User
  pub query : QueryFilter → Field → Page → S → Result (List User)
  pub count : QueryFilter → S → Result ℤ
