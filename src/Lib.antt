-- ===== src/Lib.antt =====
-- PowerAdapterBlogs, a Django blog whose boards have members with roles.
--
-- The parts, and where each one is modelled:
--
-- - Access: boards/access_rules.py, the table of roles and actions and `allows_board_action`. A role or
--   an action is an enumeration with one more constructor for any other text, which is where the source
--   raises `ValueError`.
-- - Models: the rows of boards/models.py, and the fields of accounts/models.py, Blogs/models.py and
--   comment/models.py that the code below reads. A table is the list of its rows. `None` and
--   `AnonymousUser` are users whose two flags are false.
-- - Policies: boards/policies.py. The functions about one object stand in Policies, the ones about a
--   queryset in Policies/Querysets; a query is a filter of a list. Policies/Scopes and
--   Policies/Agreement carry the proofs that compare the two, Policies/Selected, Policies/Creation
--   and Policies/Duties what they come to.
-- - Exec and Platform: how a service returns or raises, the settings, the request, the session, and what
--   Django provides: permissions, the signature of tokens, SHA-256 and `cache.add` are parameters.
-- - Text: `str.strip`, `str.isascii` and `str` of a number.
-- - Session: accounts/authn/mfa_session.py, the marks of a second factor in the session and their
--   checks. A check returns its answer and the session that it leaves.
-- - StepUp: boards/membership_step_up.py, the one-shot capability of a membership change, and
--   `has_dashboard_access` of PowerAdapterBlogs/base_admin.py.
-- - Membership: boards/services.py. `_transition_board_membership` stands in Membership, the requests
--   and the withdrawal in Membership/Requests, the Dashboard's services in Membership/Dashboard and
--   Membership/Dashboard/Changes. Membership/Evolution reads the services as a step relation on the
--   database, and Membership/Calls any sequence of calls.
-- - Outbox: security/outbox.py. The claim, the receipt and the guarded update stand in Outbox, the batch
--   in Outbox/Batch, `enqueue_audit_event` in Outbox/Enqueue, `collect_outbox_health` in Outbox/Health.
--   Outbox/System lets any number of workers take steps; the writer's answers are a parameter.
-- - AuditChain: security/audit.py, `verify_document` and `verify_chain`; `insert_event`,
--   `iter_partition` and `audit_partition` of security/mongo_client.py in AuditChain/Insertion. The HMAC
--   and the keys are parameters, and so are JSON values. A legacy document may hold an `integrity` that
--   its HMAC does not cover: AuditChain/Forgery is about it. AuditChain/Whole, Evidence, Checkpoints,
--   Heads, Intact, Ordered and Built carry the proofs.
-- - Totp: accounts/authn/mfa_services.py. The shared pieces stand in Totp, the enrollment in
--   Totp/Enrollment, the codes and the revocation in Totp/Challenge; `atomically` is the rollback of a
--   service whose body is a transaction, its audit rows included. The secret's encryption, the codes
--   of a step and the password hasher are parameters. Totp/Calls is any sequence of calls, Totp/Moves,
--   EnrollmentMoves and ChallengeMoves what one does to the device.
-- - Posts: Blogs/services.py, and the versions of Blogs/revisions.py. A form is what `form.save()`
--   writes; the diff of a revision is the revision that it is taken from.
--
-- A service calls the policies (who may review a request), the step-up capability (which looks at the
-- session and the cache) and the transition, which writes the membership, its event and its audit record.
-- `transaction.atomic()` puts the database back where its body raises; the cache and the session keep
-- what was done to them. A locked read is a read: a call runs alone, and calls follow one another.
--
-- Time is counted in seconds and stands still within a call, but for the outbox's worker, which reads the
-- clock again for its update. No function needs fuel.
--
-- Not modelled: issuing a capability, the pending challenge and its rate limit, the session's expiry
-- time, the reconciliation of delivered records, the indexes and the deployment checks of the audit
-- store, client certificates, the diffs of revisions, comments beyond the fields that policies read, and
-- the views, forms, administration pages, commands, templates and media processing.
pub mod Shared
pub mod Access
pub mod Models
pub mod Policies
pub mod Text
pub mod Exec
pub mod Platform
pub mod Session
pub mod StepUp
pub mod Membership
pub mod Outbox
pub mod Totp
pub mod Posts
pub mod AuditChain
mod Tests
