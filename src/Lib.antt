-- ===== src/Lib.antt =====
-- Optima Management: the parts of the program that keep state under rules, and what holds of them.
--
-- The program is a Django site. A table of the database is a list of rows under their keys
-- (Base/Table), `save` overwrites a row or appends one, a query set is read in the order of the
-- keys, and an exception is a value. A handler is a function from the state to an answer and the
-- new state; a receiver of a signal is called by the save that sends it.
--
-- Access: resource_management/models.py (`AccessRequest.save`), resource_management/signals.py
--   (`sync_asset_repair_from_access_request`) and resource_management/views.py (the approval links
--   and the actions of the resource team). Access/Types has the rows, Access/Ticket the numbering,
--   Access/Save the save with its signal, Access/Links the links, Access/Team the actions, and
--   Access/Reach the handlers as steps of one relation. A repair row of assets/models.py is
--   written by the signal, so it is part of this state. Access/Admin has the admin of the requests
--   (resource_management/admin.py): its rights, its save and its deletion.
-- Assets: assets/models.py, the receivers that keep the status of an asset in step with the
--   assignments and the returns. Assets/Desk has the return and the assignment through the API
--   (assets/views.py and assets/serializers.py).
-- Massmail: massmail/models/eml_accounts_queue.py (Massmail/Queue), massmail/models/mailing_out.py
--   (Massmail/MailingOut, over the text fields of Base/IdList and Base/Decimal), `check_owners` and
--   the loop over the accounts in massmail/utils/sendmassmail.py (Massmail/Owners, Massmail/Send),
--   `fix_masscontacts` (Massmail/Contacts), a whole run of `send_massmail` (Massmail/Loop) and the wait
--   for business hours (Massmail/Hours).
-- Onboarding: onboarding/models.py and onboarding/signals.py; Onboarding/Validation has
--   `Employee.clean`, Onboarding/Offboard the end of an employment, Onboarding/Notify
--   the mail to the IT team. Onboarding/Life has what the admin does to an employee
--   (onboarding/admin.py): the soft deletion and the restoring.
-- Rates: crm/models/payment.py, and in Rates/Load `get_rates` of crm/utils/rates_loader.py.
-- Tasks: tasks/models/taskbase.py, tasks/models/task.py, `check_subtasks` of
--   tasks/views/create_completed_subtask.py and `get_delta_date` of common/utils/helpers.py.
--   Tasks/Memos has tasks/models/memo.py with the permissions and the saves of
--   tasks/site/memoadmin.py.
-- Lockout: `LoginLockoutMiddleware` and `PasswordChangeLockoutMiddleware` of common/middleware.py,
--   which are one component with two kinds of keys. Lockout/Store is the interface of the cache,
--   Lockout/Status the ideal lock, Lockout/Frame and Lockout/Checks what a call does to the keys of
--   another user, Lockout/Login and Lockout/Password the two middlewares with runs of their calls.
-- ResourceRequests: the delivery requests of resource_requests/models.py. ResourceRequests/Created
--   has the signal of a new request (signals.py) with its token and mail (utils.py), and
--   ResourceRequests/Approval the link of the PMO (views.py) and the helper `approve_pmo_request`
--   (signals.py); the creation, the link and edits are steps of one relation in
--   ResourceRequests/Approval/Reach.
-- Crm: the requests of clients. Crm/Matching has `find_contact_or_lead`, `clean` and
--   `update_request_data` of crm/models/request.py, with `add_phone_q_params` of
--   common/utils/helpers.py, over the rows of Crm/Types. Crm/Companies has `find_company`, and
--   Crm/Saving the links that the save of the request admin sets (crm/site/requestadmin.py).
--   Crm/Duplicates has crm/views/delete_duplicate_object.py with the cascades of the database, and Crm/Deals `save_model` of
--   crm/site/dealadmin.py.
-- Reminders: `send_remainders` of common/utils/reminders_sender.py, over the reminders of
--   common/models.py. Reminders/Forms has `remind_me` of common/utils/remind_me.py, which writes them.
-- Examples: rows on which the theorems are applied.
--
-- Parameters stand for what the code calls and does not define: Python's `strip` and `parseaddr`,
-- Django's `strip_tags` and `validate_email`, the database's comparisons without case, the order of
-- a set and of a random query, the reply of the rate service, the answer of a mail server, base64,
-- the clock, drawn tokens and new keys. Django's cache is a record of operations whose laws are its
-- documented behaviour: a value is read until its timeout and not behind it, a deleted key reads as
-- missing, and other keys are left alone. The rewriting of HTML by `process_content_images`, which
-- uses BeautifulSoup, is a parameter too.
--
-- Two things are left out of operations that are modelled: a mail that raises behind a decision of an
-- approval link, and telephone digits beside 0 to 9. Texts that are too long for a column are refused
-- as PostgreSQL refuses them, where the code copies between columns of different lengths.
--
-- Times are seconds, dates are days, rates are units of the eighth decimal place. The loop of
-- `get_rates` has no bound of its own; it runs on fuel, and one more than the number of payments is
-- enough, since each round that does not stop gives a payment its rate. What a deleted duplicate takes
-- along is found in rounds, on fuel as well: one more than the number of rows is enough, since a row
-- leaves its table in the round that finds it (Crm/Duplicates/Cascade/Rounds).
--
-- Not modelled: pages, the fields of forms and of admin lists, serializers but for the operations
-- named above, mails (they write no row that is modelled but through the operations here), concurrent
-- requests, files and images, and the other applications of the site: crm beside the parts named above,
-- chat, voip, analytics, help, content, dashboard and the settings. Of common/middleware.py the classes
-- beside the two lockouts are left out, of crm/site/dealadmin.py the lists and the reminders of
-- `save_related`, and of resource_requests the buy-rate guidance, whose URL is commented out.
pub mod Base
pub mod Access
pub mod Assets
pub mod Massmail
pub mod Onboarding
pub mod Rates
pub mod Tasks
pub mod Lockout
pub mod ResourceRequests
pub mod Crm
pub mod Reminders
pub mod Examples
