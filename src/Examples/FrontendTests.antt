-- ===== src/Examples/FrontendTests.antt =====
-- A request through the frontend: Alice logs in and invokes the task.
use incubator_mesatee.Authentication.Users
use incubator_mesatee.Authentication.Users.{UserInfo, Claims, get_user, issuer_name}
use incubator_mesatee.Authentication.Requests as AuthRequests
use incubator_mesatee.Base.{Text, utf8, ◌≡◌, refl, ◌≤◌, true, [], ◌∷◌, ok, some, ◌==◌, ◌>>=◌}
use incubator_mesatee.Base.Utf8
use incubator_mesatee.Base.HashMap
use incubator_mesatee.Base.HashSet
use incubator_mesatee.Base.Outcome
use incubator_mesatee.Examples.Codec
use incubator_mesatee.Examples.World
use incubator_mesatee.Management.Db
use incubator_mesatee.Management.Files
use incubator_mesatee.Management.Requests
use incubator_mesatee.Management.Tasks
use incubator_mesatee.Scheduler
use incubator_mesatee.Storage.Queue
use incubator_mesatee.Storage.Service
use incubator_mesatee.System.Reach
use incubator_mesatee.Types.Crypto
use incubator_mesatee.Types.Error
use incubator_mesatee.Types.File
use incubator_mesatee.Types.Owners
use incubator_mesatee.Types.Restore
use incubator_mesatee.Types.Staged
use incubator_mesatee.Types.Storage
use incubator_mesatee.Types.Task
use incubator_mesatee.Types.TaskState
use incubator_mesatee.Types.Transition
use incubator_mesatee.Types.Worker
use incubator_mesatee.Examples.Accounts
use incubator_mesatee.Examples.Accounts.{accounts, with_alice, secret, token}
use incubator_mesatee.Examples.Runs.{after, approved_by_both}
use incubator_mesatee.Examples.SystemTests.{reached_at}
use incubator_mesatee.Examples.World.{client, crates, memory, alice, task_id}
use incubator_mesatee.Frontend.Service as FrontService
use incubator_mesatee.Frontend.Requests as FrontRequests
use incubator_mesatee.Frontend.Service.{Frontend}
use incubator_mesatee.Frontend.Requests.{services}
use incubator_mesatee.Management.Requests.{Request, InvokeTaskRequest}
use incubator_mesatee.System.Authenticated.{invoke_task-authenticated}
use incubator_mesatee.System.Step.{Holds, task_key}
use incubator_mesatee.Types.Storage.{to_bytes}
use incubator_mesatee.Types.TaskState.{TaskState, has_creator, all_data_assigned, everyone_approved}

abbrev request : Request InvokeTaskRequest
request = record {
  metadata = (utf8 "id", alice) ∷ (utf8 "token", token) ∷ [];
  message = record { task_id = task_id };
}

abbrev front : Frontend (services accounts memory crates client 200 secret)
front = record { metadata = []; services = (with_alice, after approved_by_both) }

invokes :
    (FrontRequests.invoke_task accounts memory crates client 200 secret request front).0 ≡ ok tt
unfolding Users.new Users.verify_password Users.get_token Users.validate_token Users.get_user
    Users.create_user AuthRequests.user_register AuthRequests.user_login
    AuthRequests.user_authenticate Accounts.decode FrontService.response_error FrontService.extend
    FrontService.credential_part FrontService.on_services FrontService.set_metadata
    FrontService.get_metadata FrontService.authenticate FrontService.require_accept
    FrontService.attempt FrontService.forward FrontRequests.on_store
    FrontRequests.register_input_file FrontRequests.update_input_file
    FrontRequests.register_output_file FrontRequests.update_output_file
    FrontRequests.register_fusion_output FrontRequests.register_input_from_output
    FrontRequests.get_output_file FrontRequests.get_input_file FrontRequests.register_function
    FrontRequests.get_function FrontRequests.create_task FrontRequests.get_task
    FrontRequests.assign_data FrontRequests.approve_task FrontRequests.invoke_task Utf8.starts_with
    Outcome.pure Outcome.raise Outcome.lift Outcome.map_err Outcome.ensure HashSet.contains
    HashSet.insert HashSet.collect HashSet.all_in HashSet.eq HashMap.get HashMap.insert
    HashMap.modify Error.display Error.from_anyhow Crypto.tag_from_bytes Crypto.aes_gcm_128_new
    Crypto.aes_gcm_256_new Crypto.teaclave_file_128_new Crypto.new Crypto.schema Crypto.key_iv
    Owners.from_list Owners.contains Owners.length Owners.insert Owners.union Owners.unions
    Owners.eq Owners.any_contains Storage.to_bytes Storage.match_prefix Storage.external_id
    Storage.storage_key Worker.executor_type_from Worker.executor_type_display Worker.executor_from
    Worker.executor_display File.input_new File.from_output File.output_new File.assign_cmac
    Staged.from_input Staged.from_output_file Staged.input_files Staged.output_files Task.all_owners
    Task.check Task.assign Task.external_ids Task.update_cmac TaskState.everyone_approved
    TaskState.same_keys TaskState.all_data_assigned TaskState.has_participant TaskState.has_creator
    Transition.status_of Transition.gather Transition.create_new Transition.assign_input
    Transition.assign_output Transition.approve_by Transition.stage_for_running
    Transition.update_output_cmac Transition.update_result Restore.assign_to_approve
    Restore.approve_to_stage Restore.restore_assign Restore.restore_approve Restore.restore_stage
    Restore.restore_run Restore.restore_finish Restore.save_create Restore.save_moving
    Restore.save_assign Restore.save_approve Restore.save_stage Restore.save_run Restore.save_finish
    Queue.storage_error Queue.le_bytes Queue.from_le_bytes Queue.next_index Queue.tail_key
    Queue.head_key Queue.element_key Queue.decode_u32 Queue.read_u32 Queue.get_head Queue.get_tail
    Queue.enqueue Queue.dequeue Service.get Service.put Service.delete Service.enqueue
    Service.dequeue Requests.response_error Db.or_else Db.get_request_user_id Db.write_to_db
    Db.read_from_db Db.enqueue_to_db Files.function_of Files.register_input_file
    Files.update_input_file Files.register_output_file Files.update_output_file
    Files.create_fusion_data Files.register_fusion_output Files.register_input_from_output
    Files.get_output_file Files.get_input_file Files.register_function Files.get_function
    Tasks.create_task Tasks.get_task Tasks.assign_inputs Tasks.assign_outputs Tasks.assign_data
    Tasks.approve_task Tasks.invoke_task Scheduler.response_error Scheduler.publish_task
    Scheduler.pull_staged Scheduler.get_from_db Scheduler.put_into_db Scheduler.get_task_state
    Scheduler.pull_task Scheduler.update_task_status Scheduler.update_tags Scheduler.take_outputs
    Scheduler.update_task_result Reach.run Reach.run_all Codec.both_dec Codec.via_dec
    Codec.items_enc Codec.items_dec Codec.from_text World.remove ◌==◌ ◌>>=◌
invokes = refl

invoke_task-authenticated_example :
    (id shown : Text) × (u : UserInfo) × (claims : Claims) × (ts : TaskState) × (HashMap.get
        request.metadata
        (utf8 "id")
      ≡ some id)
    × (HashMap.get request.metadata (utf8 "token") ≡ some shown)
    × (get_user accounts memory with_alice id ≡ ok u)
    × (accounts.decode shown secret (record { iss = issuer_name; sub = u.id }) 200 ≡ ok claims)
    × (claims.sub ≡ u.id)
    × (claims.iss ≡ issuer_name)
    × (200 ≤ claims.exp)
    × Holds crates client (after approved_by_both) ts
    × (task_key crates client ts ≡ to_bytes crates.show_uuid task_id)
    × (has_creator ts id ≡ true)
    × (all_data_assigned ts ≡ true)
    × (everyone_approved ts ≡ true)
invoke_task-authenticated_example =
    invoke_task-authenticated accounts memory crates client 200 secret request front
      (reached_at approved_by_both) invokes
