-- ===== src/Handler/Response.antt =====
-- `create_error_response` of src/handler.rs.
use load_ants.Prelude.{◌≡◌, refl, sym, ap, ◌∙◌, List, [], ◌∷◌, ◌++◌, append_assoc, append-nil}
use load_ants.Proto.{Proto, ProtoLaws}
use load_ants.Cache.{Moka}
use load_ants.Router.{Patterns}
use load_ants.Handler.{Upstream, add_queries, create_error_response}

module _ (D : Proto) (laws : ProtoLaws D) (M : Moka D) (shuffle : List (D.Record) → List (D.Record))
    (P : Patterns) (U : Upstream D) where
  open D use {Message, Query, ResponseCode, id, queries, response_code}

  abbrev added : List Query → Message → Message
  added = add_queries D M shuffle P U

  id-add_queries : (qs : List Query) (m : Message) → id (added qs m) ≡ id m
  unfolding add_queries
  id-add_queries [] m = refl
  id-add_queries (q ∷ qs) m = id-add_queries qs _ ∙ laws.id-add_query q m

  code-add_queries : (qs : List Query) (m : Message) → response_code (added qs m) ≡ response_code m
  unfolding add_queries
  code-add_queries [] m = refl
  code-add_queries (q ∷ qs) m = code-add_queries qs _ ∙ laws.code-add_query q m

  queries-add_queries : (qs : List Query) (m : Message) → queries (added qs m) ≡ queries m ++ qs
  unfolding add_queries
  queries-add_queries [] m = sym (append-nil _)
  queries-add_queries (q ∷ qs) m =
      queries-add_queries qs _
      ∙ ap (λ l. l ++ qs) (laws.queries-add_query q m)
      ∙ append_assoc (queries m) (q ∷ []) qs

  -- An error response answers its request: it has the request's id and questions, and the code.
  pub record Answers (request : Message) (code : ResponseCode) (response : Message) : Type 0 where
    pub same_id : id response ≡ id request
    pub same_queries : queries response ≡ queries request
    pub has_code : response_code response ≡ code

  -- An error response has the id and the questions of its request, and the code it is made with.
  pub create_error_response-Answers :
      (request : Message) (code : ResponseCode)
      → Answers request code (create_error_response D M shuffle P U request code)
  unfolding create_error_response
  create_error_response-Answers request code = record {
    same_id =
        id-add_queries (queries request) _
        ∙ laws.id-set_response_code _ _
        ∙ laws.id-set_recursion_available _ _
        ∙ laws.id-set_recursion_desired _ _
        ∙ laws.id-set_op_code _ _
        ∙ laws.id-set_response _
        ∙ laws.id-set_id _ _;
    same_queries =
        queries-add_queries (queries request) _
        ∙ ap (λ l. l ++ queries request)
            (laws.queries-set_response_code _ _
              ∙ laws.queries-set_recursion_available _ _
              ∙ laws.queries-set_recursion_desired _ _
              ∙ laws.queries-set_op_code _ _
              ∙ laws.queries-set_response _
              ∙ laws.queries-set_id _ _
              ∙ laws.queries-new_message);
    has_code = code-add_queries (queries request) _ ∙ laws.code-set_response_code _ _;
  }
