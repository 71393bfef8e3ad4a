-- ===== src/Scope/Vetoes.antt =====
-- What an authorized call has shown.
use token_terminator.Common.{
  ℕ, String, ◌≡◌, Bool, true, false, [], ◌∷◌, any, all, Result, ok, ◌&&◌, ◌⊎◌,
}
use token_terminator.Json.{Value, object, Fields, get, has, truthy}
use token_terminator.Scope.{
  present, purpose_keys, auxiliary_keys, service_keys, histories, is_history, first_history, speaks,
  is_main_hook, is_conversation, mode_allowed, is_named, generations, is_empty,
}

-- The evidence that an object is the request of a conversation, in no order
pub record IsEvident (lower : String → String) (fields context : Fields) : Type 0 where
  pub no_auxiliary : any (λ k. truthy (get k context)) auxiliary_keys ≡ false
  pub purposes : all (is_conversation lower) (present purpose_keys context) ≡ true
  pub generates : mode_allowed (get "api_mode" context) ≡ true
  pub operations :
      all (is_named generations) (present ("operation" ∷ "endpoint" ∷ []) context) ≡ true
  pub no_service : any (λ k. has k fields) service_keys ≡ false
  pub unambiguous : (has "messages" fields && has "input" fields) ≡ false
  pub one_history : is_history (histories ("messages" ∷ "input" ∷ []) fields) ≡ true
  pub spoken : speaks (first_history (histories ("messages" ∷ "input" ∷ []) fields)) ≡ ok true
  pub positive : (is_empty (present purpose_keys context) ≡ false) ⊎ (is_main_hook context ≡ true)

-- The evidence that a call is a conversation
pub record IsAuthorized (lower : String → String) (depth : ℕ) (role : Result Bool) (request : Value)
    (context : Fields) : Type 0 where
  pub fields : Fields
  pub outermost : depth ≡ 0
  pub main_role : role ≡ ok false
  pub is_object : request ≡ object fields
  pub evident : IsEvident lower fields context
